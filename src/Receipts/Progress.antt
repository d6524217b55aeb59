-- ===== src/Receipts/Progress.antt =====
-- A stored receipt only moves forward.
use meterkit.Prelude.{
  ◌≤◌, String, ◌≡◌, refl, Bool, true, not, ◌||◌, none, some, List, [], ◌∷◌, ◌==◌, eq_iff, find,
  if◌then◌else◌, modify_where, Result, ok, err, reject_if-ok, Result-cases, Option-cases,
  Bool-cases, inl, inr, arith, ltb, sym, ◌∙◌, subst, find-mem,
}
use meterkit.Platform.{Runtime}
use meterkit.Spend.{numeric_bound}
use meterkit.Receipts.{
  Receipt, ReceiptRow, ReceiptError, Settlement, is_settled, is_confirmed, same_settlement, invalid,
  constraint_violated, is_receipt, to_row, may_update, merge_row, upsert, save_public_receipt,
}

-- How a stored receipt may change: what was paid, by whom, to whom and for what stays, and so does a
-- finalized or failed settlement; a confirmed one stays or becomes final; time does not go back.
pub record IsForward (old new : ReceiptRow) : Type 0 where
  pub product : new.product_id ≡ old.product_id
  pub network : new.network ≡ old.network
  pub asset : new.asset_mint ≡ old.asset_mint
  pub amount : new.amount_atomic ≡ old.amount_atomic
  pub recipient : new.recipient ≡ old.recipient
  pub payer : new.payer ≡ old.payer
  pub resource : new.resource_url ≡ old.resource_url
  pub created : new.created_at ≡ old.created_at
  pub settled : is_settled old.settlement ≡ true → new.settlement ≡ old.settlement
  pub confirmed :
      is_confirmed old.settlement ≡ true
      → (is_confirmed new.settlement || is_settled new.settlement) ≡ true
  pub time : old.updated_at ≤ new.updated_at

same_settlement-eq : (s t : Settlement) → same_settlement s t ≡ true → s ≡ t
same_settlement-eq s t h = ground (arith, h)

IsForward-refl : (r : ReceiptRow) → IsForward r r
IsForward-refl r = record {
  product = refl;
  network = refl;
  asset = refl;
  amount = refl;
  recipient = refl;
  payer = refl;
  resource = refl;
  created = refl;
  settled = λ _. refl;
  confirmed = λ c. ground (arith, c);
  time = omega arith;
}

IsForward-trans : (a b c : ReceiptRow) → IsForward a b → IsForward b c → IsForward a c
IsForward-trans a b c f g = record {
  product = g.product ∙ f.product;
  network = g.network ∙ f.network;
  asset = g.asset ∙ f.asset;
  amount = g.amount ∙ f.amount;
  recipient = g.recipient ∙ f.recipient;
  payer = g.payer ∙ f.payer;
  resource = g.resource ∙ f.resource;
  created = g.created ∙ f.created;
  settled = λ s. g.settled (rw (f.settled s) s) ∙ f.settled s;
  confirmed = λ s. later (f.confirmed s);
  time = omega (arith, f.time, g.time);
}
  where
    later :
        (is_confirmed b.settlement || is_settled b.settlement) ≡ true
        → (is_confirmed c.settlement || is_settled c.settlement) ≡ true
    later h = elim (Bool-cases (is_confirmed b.settlement)) [
      | inl e ↦ g.confirmed e
      | inr e ↦ let t : is_settled b.settlement ≡ true = ground (arith, h, e) in rw (g.settled t) h
    ]

merge_row-IsForward :
    (old row : ReceiptRow) → may_update old row ≡ true → IsForward old (merge_row row old)
unfolding may_update merge_row
merge_row-IsForward old row h = record {
  product = refl;
  network = refl;
  asset = refl;
  amount = refl;
  recipient = refl;
  payer = refl;
  resource = refl;
  created = refl;
  settled = λ s. sym (same_settlement-eq old.settlement row.settlement (ground (arith, h, s)));
  confirmed = λ s. ground (arith, h, s);
  time = ground (arith, h);
}

abbrev pub HasReceipt : String → List ReceiptRow → ReceiptRow → Type 0
HasReceipt id rows r = find (λ q. q.receipt_id == id) rows ≡ some r

find-merge :
    (id : String) (row : ReceiptRow) (rows : List ReceiptRow) {old : ReceiptRow}
    → HasReceipt id rows old
    → HasReceipt id
        (modify_where (λ q. q.receipt_id == row.receipt_id) (merge_row row) rows)
        (if old.receipt_id == row.receipt_id then merge_row row old else old)
unfolding merge_row
find-merge id row [] h = cc
find-merge id row (q ∷ rows) {old} h = elim (Bool-cases (q.receipt_id == id)) [
  | inl e ↦ let hit : some q ≡ some old = rw e at h in ground (arith, hit, e)
  | inr e ↦ ground (arith, find-merge id row rows {old = old} (rw e at h))
]

upsert-ok :
    (row : ReceiptRow) (rows : List ReceiptRow) (old : ReceiptRow) {rows' : List ReceiptRow}
    → upsert row rows (some old) ≡ ok rows'
    → (may_update old row ≡ true)
      × (modify_where (λ q. q.receipt_id == row.receipt_id) (merge_row row) rows ≡ rows')
unfolding upsert
upsert-ok row rows old h = ground (arith, h)

upsert-none :
    (row : ReceiptRow) (rows : List ReceiptRow) {rows' : List ReceiptRow}
    → upsert row rows none ≡ ok rows'
    → row ∷ rows ≡ rows'
unfolding upsert
upsert-none row rows h = cc

find-receipt_id :
    (id : String) (rows : List ReceiptRow) {r : ReceiptRow}
    → HasReceipt id rows r
    → r.receipt_id ≡ id
find-receipt_id id rows h = (find-mem (λ q. q.receipt_id) id rows h).0

upsert-IsForward :
    (row : ReceiptRow) (id : String) (rows rows' : List ReceiptRow) {old : ReceiptRow}
    → HasReceipt id rows old
    → upsert row rows (find (λ q. q.receipt_id == row.receipt_id) rows) ≡ ok rows'
    → (new : ReceiptRow) × HasReceipt id rows' new × IsForward old new
upsert-IsForward row id rows rows' {old} h e =
    elim (Option-cases (find (λ q. q.receipt_id == row.receipt_id) rows)) [
      | inl n ↦ (old, fresh n (rw n at e), IsForward-refl old)
      | inr (old', n) ↦
          let (may, same) = upsert-ok row rows old' (rw n at e) in
          let found = find-merge id row rows {old = old} h in
          elim (Bool-cases (old.receipt_id == row.receipt_id)) [
            | inl t ↦
                let this : old' ≡ old = owner t n in
                (
                  merge_row row old,
                  subst (λ z. HasReceipt id z (merge_row row old)) same (rw t at found),
                  merge_row-IsForward old row (subst (λ z. may_update z row ≡ true) this may),
                )
            | inr t ↦
                (old, subst (λ z. HasReceipt id z old) same (rw t at found), IsForward-refl old)
          ]
    ]
  where
    fresh :
        find (λ q. q.receipt_id == row.receipt_id) rows ≡ none
        → upsert row rows none ≡ ok rows'
        → HasReceipt id rows' old
    fresh n u = elim (Bool-cases (row.receipt_id == id)) [
      | inl t ↦
          let gone : find (λ q. q.receipt_id == id) rows ≡ none =
            subst (λ k. find (λ q. q.receipt_id == k) rows ≡ none) ((eq_iff row.receipt_id id).0 t)
              n in
          cc (gone, h)
      | inr t ↦
          let grown : row ∷ rows ≡ rows' = upsert-none row rows u in
          subst (λ z. HasReceipt id z old) grown (rw t h)
    ]

    owner :
        {old' : ReceiptRow}
        → (old.receipt_id == row.receipt_id) ≡ true
        → find (λ q. q.receipt_id == row.receipt_id) rows ≡ some old'
        → old' ≡ old
    owner {old'} t n =
        let key : row.receipt_id ≡ id =
          sym ((eq_iff old.receipt_id row.receipt_id).0 t) ∙ find-receipt_id id rows h in
        let found : find (λ q. q.receipt_id == id) rows ≡ some old' =
          subst (λ k. find (λ q. q.receipt_id == k) rows ≡ some old') key n in
        cc (found, h)

module _ (rt : Runtime) (is_uuid : String → Bool) where
  abbrev keep : List ReceiptRow → Result ReceiptError (List ReceiptRow) → List ReceiptRow
  keep rows (ok rows') = rows'
  keep rows (err e) = rows

  -- A client saves receipts, one after another; a refused one changes nothing.
  unfoldable pub save_all : List ReceiptRow → List Receipt → List ReceiptRow
  save_all rows [] = rows
  save_all rows (r ∷ rs) = save_all (keep rows (save_public_receipt rt is_uuid r rows)) rs

  save-IsForward :
      (r : Receipt) (id : String) (rows rows' : List ReceiptRow) {old : ReceiptRow}
      → HasReceipt id rows old
      → save_public_receipt rt is_uuid r rows ≡ ok rows'
      → (new : ReceiptRow) × HasReceipt id rows' new × IsForward old new
  unfolding save_public_receipt to_row
  save-IsForward r id rows rows' h e =
      let (_, e₁) = reject_if-ok (not (is_receipt rt is_uuid r)) invalid e in
      let (_, e₂) = reject_if-ok (not (ltb r.amount_atomic numeric_bound)) constraint_violated e₁ in
      upsert-IsForward (to_row r) id rows rows' h e₂

  -- Whatever receipts are saved afterwards, in any order, a stored receipt keeps its product, network,
  -- asset, amount, recipient, payer, resource and creation time; its last update does not go back; a
  -- finalized or failed settlement stays as it is, and a confirmed one stays or becomes one of them.
  pub save_all-IsForward :
      (rs : List Receipt) (id : String) (rows : List ReceiptRow) (old : ReceiptRow)
      → HasReceipt id rows old
      → (new : ReceiptRow) × HasReceipt id (save_all rows rs) new × IsForward old new
  unfolding save_all
  save_all-IsForward [] id rows old h = (old, h, IsForward-refl old)
  save_all-IsForward (r ∷ rs) id rows old h =
      elim (Result-cases (save_public_receipt rt is_uuid r rows)) [
        | inl (rows', e) ↦
            let (mid, there, first) = save-IsForward r id rows rows' {old = old} h e in
            let (new, found, rest) = save_all-IsForward rs id rows' mid there in
            (new, rw e found, IsForward-trans old mid new first rest)
        | inr (x, e) ↦
            let (new, found, rest) = save_all-IsForward rs id rows old h in (new, rw e found, rest)
      ]
