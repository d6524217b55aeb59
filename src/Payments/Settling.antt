-- ===== src/Payments/Settling.antt =====
-- The table `payments` of packages/database/src/index.ts under any sequence of calls.
use meterkit.Prelude.{
  String, ◌≡◌, refl, Bool, true, false, ◌&&◌, Option, some, List, [], ◌∷◌, map, ◌==◌, any, find,
  mem, Distinct, All, modify_where, Result, ok, err, arith, Bool-cases, inl, inr, reject_if-ok,
  or_throw-ok, bind-ok, Result-cases, eq_iff, map-modify_where, All-modify_where, subst, not, ltb,
  All-impl, ◌∙◌, sym,
}
use meterkit.Platform.{solana_devnet}
use meterkit.Payments.{
  Payment, PaymentStatus, confirmed, finalized, failed, PaymentError, parse_payment,
  parse_payment-ok, constraint_violated, payment_replayed,
}
use meterkit.Spend.{numeric_bound}
use meterkit.Payments.Table.{
  Row, is_confirmed, save, mark_finalized, mark_failed, matches, set_status, conflicts,
}

-- A call of a client of the store. Nothing else writes the table.
pub data Call : Type 0 where
  saves : Payment → Call
  marks_finalized : (signature : String) → Call
  marks_failed : (signature : String) → Call

abbrev keep : List Row → Result PaymentError (List Row) → List Row
keep rows (ok rows') = rows'
keep rows (err e) = rows

abbrev pub id_of : Row → String
id_of r = r.payment.id

abbrev pub signature_of : Row → String
signature_of r = r.payment.signature

module _ (uid_of : String → String → Option String) where
  unfoldable pub step : List Row → Call → List Row
  step rows (saves p) = keep rows (save uid_of p rows)
  step rows (marks_finalized signature) = (mark_finalized signature rows).0
  step rows (marks_failed signature) = (mark_failed signature rows).0

  unfoldable pub run : List Row → List Call → List Row
  unfolding step
  run rows [] = rows
  run rows (c ∷ cs) = run (step rows c) cs

  -- The row that a save adds.
  abbrev added : Payment → String → Row
  added p uid = record { payment = record p { status = confirmed }; product_uid = uid }

  -- What a save that succeeds has passed.
  record IsSaved (p : Payment) (rows rows' : List Row) : Type 0 where
    uid : String
    devnet : p.network ≡ solana_devnet
    fresh : any (conflicts p) rows ≡ false
    grown : rows' ≡ added p uid ∷ rows

  save-IsSaved :
      (p : Payment) (rows : List Row) {rows' : List Row}
      → save uid_of p rows ≡ ok rows'
      → IsSaved p rows rows'
  unfolding save parse_payment
  save-IsSaved p rows h =
      let (value, parsed, h₁) = bind-ok (parse_payment p) h in
      let (same, devnet) = parse_payment-ok p parsed in
      let (uid, _, h₃) =
        or_throw-ok (uid_of value.pay_to value.product_id) constraint_violated h₁ in
      let (_, h₄) =
        reject_if-ok (not (ltb 0 value.amount_atomic && ltb value.amount_atomic numeric_bound))
          constraint_violated h₃ in
      let (fresh, h₅) = reject_if-ok (any (conflicts value) rows) payment_replayed h₄ in
      record {
        uid = uid;
        devnet = devnet;
        fresh = subst (λ q. any (conflicts q) rows ≡ false) same fresh;
        grown = cc (h₅, same);
      }

-- What every table that the calls reach satisfies.
pub record IsTable (rows : List Row) : Type 0 where
  pub devnet : All (λ r. r.payment.network ≡ solana_devnet) rows
  pub ids_distinct : Distinct (map id_of rows)
  pub signatures_distinct : Distinct (map signature_of rows)

any-fresh :
    (p : Payment) (rows : List Row)
    → All (λ r. r.payment.network ≡ p.network) rows
    → any (conflicts p) rows ≡ false
    → (mem p.id (map id_of rows) ≡ false) × (mem p.signature (map signature_of rows) ≡ false)
unfolding conflicts
any-fresh p [] n h = (refl, refl)
any-fresh p (r ∷ rows) n h = ground (
  arith,
  eq_iff p.id r.payment.id,
  eq_iff r.payment.id p.id,
  eq_iff p.signature r.payment.signature,
  eq_iff r.payment.signature p.signature,
  eq_iff r.payment.network p.network,
  any-fresh p rows n.1,
)

mark-IsTable :
    (status : PaymentStatus) (m : Row → Bool) (rows : List Row)
    → IsTable rows
    → IsTable (modify_where m (set_status status) rows)
unfolding set_status
mark-IsTable status m rows t = record {
  devnet =
      All-modify_where (λ r. r.payment.network ≡ solana_devnet) m (set_status status) rows
        (λ r e. ground arith) t.devnet;
  ids_distinct =
      rw (map-modify_where id_of m (set_status status) rows (λ r. refl)) (t.ids_distinct);
  signatures_distinct =
      rw (map-modify_where signature_of m (set_status status) rows (λ r. refl))
        (t.signatures_distinct);
}

save-IsTable :
    (uid_of : String → String → Option String) (p : Payment) (rows rows' : List Row)
    → IsTable rows
    → save uid_of p rows ≡ ok rows'
    → IsTable rows'
save-IsTable uid_of p rows rows' t h =
    let s = save-IsSaved uid_of p rows h in
    let (id, signature) =
      any-fresh p rows (All-impl rows (λ r e. e ∙ sym s.devnet) t.devnet) s.fresh in
    rw s.grown (record {
      devnet = (s.devnet, t.devnet);
      ids_distinct = (id, t.ids_distinct);
      signatures_distinct = (signature, t.signatures_distinct);
    })

step-IsTable :
    (uid_of : String → String → Option String) (rows : List Row) (c : Call)
    → IsTable rows
    → IsTable (step uid_of rows c)
unfolding step mark_finalized mark_failed
step-IsTable uid_of rows (saves p) t = elim (Result-cases (save uid_of p rows)) [
  | inl (rows', e) ↦ rw e (save-IsTable uid_of p rows rows' t e)
  | inr (x, e) ↦ rw e t
]
step-IsTable uid_of rows (marks_finalized s) t = mark-IsTable finalized (matches s) rows t
step-IsTable uid_of rows (marks_failed s) t = mark-IsTable failed (matches s) rows t

run-IsTable :
    (uid_of : String → String → Option String) (rows : List Row) (cs : List Call)
    → IsTable rows
    → IsTable (run uid_of rows cs)
unfolding run
run-IsTable uid_of rows [] t = t
run-IsTable uid_of rows (c ∷ cs) t =
    run-IsTable uid_of (step uid_of rows c) cs (step-IsTable uid_of rows c t)

-- After any calls on an empty table no two payments have the same transaction signature or the same
-- id, and all are payments of Devnet.
pub run-empty-IsTable :
    (uid_of : String → String → Option String) (cs : List Call) → IsTable (run uid_of [] cs)
run-empty-IsTable uid_of cs =
    run-IsTable uid_of [] cs (record { devnet = tt; ids_distinct = tt; signatures_distinct = tt })

-- The payment of an id, in the state it has.
abbrev pub HasRow : String → List Row → Row → Type 0
HasRow id rows r = find (λ q. q.payment.id == id) rows ≡ some r

pub mark-settled :
    (status : PaymentStatus) (signature id : String) (rows : List Row) {r : Row}
    → HasRow id rows r
    → is_confirmed r.payment.status ≡ false
    → HasRow id (modify_where (matches signature) (set_status status) rows) r
unfolding matches set_status
mark-settled status signature id [] h n = cc
mark-settled status signature id (q ∷ rows) {r} h n = elim (Bool-cases (q.payment.id == id)) [
  | inl e ↦ let hit : some q ≡ some r = rw e at h in ground (arith, hit)
  | inr e ↦ ground (arith, mark-settled status signature id rows {r = r} (rw e at h) n)
]

find-conflicts :
    (p : Payment) (rows : List Row) {r : Row} → HasRow p.id rows r → any (conflicts p) rows ≡ true
unfolding conflicts
find-conflicts p [] h = cc
find-conflicts p (q ∷ rows) {r} h = ground (arith, find-conflicts p rows {r = r})

save-keeps :
    (uid_of : String → String → Option String) (p : Payment) (id : String) (rows rows' : List Row)
    {r : Row}
    → HasRow id rows r
    → save uid_of p rows ≡ ok rows'
    → HasRow id rows' r
save-keeps uid_of p id rows rows' {r} h e =
    let s = save-IsSaved uid_of p rows e in
    rw s.grown (elim (Bool-cases (p.id == id)) [
      | inl same ↦ cc (s.fresh, find-conflicts p rows {r = r} (rw ((eq_iff p.id id).0 same) h))
      | inr other ↦ rw other h
    ])

step-settled :
    (uid_of : String → String → Option String) (id : String) (rows : List Row) (c : Call) {r : Row}
    → HasRow id rows r
    → is_confirmed r.payment.status ≡ false
    → HasRow id (step uid_of rows c) r
unfolding step mark_finalized mark_failed
step-settled uid_of id rows (saves p) h n = elim (Result-cases (save uid_of p rows)) [
  | inl (rows', e) ↦ rw e (save-keeps uid_of p id rows rows' h e)
  | inr (x, e) ↦ rw e h
]
step-settled uid_of id rows (marks_finalized s) h n = mark-settled finalized s id rows h n
step-settled uid_of id rows (marks_failed s) h n = mark-settled failed s id rows h n

-- A payment that is finalized or failed stays exactly as it is under any further calls.
pub run-settled :
    (uid_of : String → String → Option String) (id : String) (rows : List Row) (cs : List Call)
    {r : Row}
    → HasRow id rows r
    → is_confirmed r.payment.status ≡ false
    → HasRow id (run uid_of rows cs) r
unfolding run
run-settled uid_of id rows [] h n = h
run-settled uid_of id rows (c ∷ cs) h n =
    run-settled uid_of id (step uid_of rows c) cs (step-settled uid_of id rows c h n) n
