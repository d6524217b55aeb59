-- ===== src/Spend/Deleting.antt =====
-- `deleteAllowanceMetadata` of packages/database/src/index.ts: the row of an allowance goes, and its
-- reservations with it.
use meterkit.Prelude.{
  String, ◌≡◌, refl, sym, ◌∙◌, inl, inr, Bool, true, false, ◌&&◌, not, List, [], ◌∷◌, ◌==◌, eq_iff,
  mem, All, All-impl, All-filter, All-filter_self, All-both, not-true, Distinct, Distinct-filter,
  any, filter, Bool-cases, arith,
}
use meterkit.Spend.{
  Allowance, Reservation, ReservationStatus, Ledger, is_reserved, delete_allowance_metadata,
}
use meterkit.Spend.Invariant.{IsFunded, IsOwned, IsLedger, total, is_consumed, addresses}

-- What is left when the row of one owner and address is deleted with its reservations.
module _ (owner address : String) where
  abbrev pub hit : Allowance → Bool
  hit a = a.owner_wallet == owner && a.address == address

  abbrev pub others : List Reservation → List Reservation
  others = filter (λ r. not (address == r.allowance_address))

  pub total-others :
      (p : ReservationStatus → Bool) (kept : String) (rs : List Reservation)
      → (kept == address) ≡ false
      → total p kept (others rs) ≡ total p kept rs
  total-others p kept [] ne = refl
  total-others p kept (r ∷ rs) ne = ground (
    arith,
    eq_iff kept address,
    eq_iff kept r.allowance_address,
    eq_iff address r.allowance_address,
    total-others p kept rs ne,
  )

  mem-remaining :
      (k : String) (rows : List Allowance)
      → (address == k) ≡ false
      → mem k (addresses rows) ≡ true
      → mem k (addresses (filter (λ a. not (hit a)) rows)) ≡ true
  mem-remaining k [] ne m = m
  mem-remaining k (a ∷ rows) ne m = ground (
    arith,
    eq_iff k a.address,
    eq_iff a.address address,
    eq_iff address k,
    mem-remaining k rows ne,
  )

  absent :
      (rows : List Allowance)
      → mem address (addresses rows) ≡ false
      → All (λ a. (a.address == address) ≡ true → hit a ≡ true) rows
  absent [] m = tt
  absent (a ∷ rows) m = (
    (λ t. ground (arith, eq_iff a.address address, eq_iff address a.address)),
    absent rows (ground arith),
  )

  any-address : (rows : List Allowance) → any hit rows ≡ true → mem address (addresses rows) ≡ true
  any-address [] h = h
  any-address (a ∷ rows) h =
      ground (arith, eq_iff a.address address, eq_iff address a.address, any-address rows)

  hit-find :
      (rows : List Allowance)
      → any hit rows ≡ true
      → Distinct (addresses rows)
      → All (λ a. (a.address == address) ≡ true → hit a ≡ true) rows
  hit-find [] h d = tt
  hit-find (a ∷ rows) h d = elim (Bool-cases (hit a)) [
    | inl e ↦ ((λ _. e), absent rows (ground (arith, eq_iff a.address address, d.0)))
    | inr e ↦
        let later : any hit rows ≡ true = rw e at h in
        let there : mem address (addresses rows) ≡ true = any-address rows later in
        ((λ t. ground (arith, eq_iff a.address address, d.0, there)), hit-find rows later d.1)
  ]

  kept-ne :
      (a : Allowance)
      → ((a.address == address) ≡ true → hit a ≡ true)
      → not (hit a) ≡ true
      → (a.address == address) ≡ false
  kept-ne a only kept = elim (Bool-cases (a.address == address)) [
    | inl e ↦ cc (only e, not-true kept)
    | inr e ↦ e
  ]

  IsFunded-others :
      (rs : List Reservation) (a : Allowance)
      → IsFunded rs a
      → (a.address == address) ≡ false
      → IsFunded (others rs) a
  IsFunded-others rs a f ne = record {
    bounded = f.bounded;
    held = f.held ∙ sym (total-others is_reserved a.address rs ne);
    spent = f.spent ∙ sym (total-others is_consumed a.address rs ne);
  }

  IsOwned-others :
      (rs : List Reservation) (rows : List Allowance)
      → IsOwned rs (addresses rows)
      → IsOwned (others rs) (addresses (filter (λ a. not (hit a)) rows))
  IsOwned-others [] rows o = tt
  IsOwned-others (r ∷ rs) rows o = elim (Bool-cases (address == r.allowance_address)) [
    | inl e ↦ rw e (IsOwned-others rs rows o.1)
    | inr e ↦ rw e (mem-remaining r.allowance_address rows e o.0, IsOwned-others rs rows o.1)
  ]

pub delete_allowance_metadata-IsLedger :
    (owner address : String) (l : Ledger)
    → IsLedger l
    → IsLedger (delete_allowance_metadata owner address l).0
unfolding delete_allowance_metadata
delete_allowance_metadata-IsLedger owner address l v =
    elim (Bool-cases (any (hit owner address) l.allowances)) [
      | inl e ↦ rw e (record {
        funded =
            All-impl _
              (λ a p.
                IsFunded-others owner address l.reservations a p.0.0
                  (kept-ne owner address a p.0.1 p.1))
              (All-both
                (λ a.
                  IsFunded l.reservations a
                  × ((a.address == address) ≡ true → hit owner address a ≡ true))
                (λ a. not (hit owner address a) ≡ true) _
                (All-filter _ _ l.allowances (
                  All-both (IsFunded l.reservations)
                    (λ a. (a.address == address) ≡ true → hit owner address a ≡ true) l.allowances
                    v.funded (hit-find owner address l.allowances e v.addresses_distinct)))
                (All-filter_self (λ a. not (hit owner address a)) l.allowances));
        addresses_distinct = Distinct-filter (λ a. a.address) _ l.allowances v.addresses_distinct;
        ids_distinct = Distinct-filter (λ r. r.reservation_id) _ l.reservations v.ids_distinct;
        keys_distinct = Distinct-filter (λ r. r.payment_key) _ l.reservations v.keys_distinct;
        owned = IsOwned-others owner address l.reservations l.allowances v.owned;
      })
      | inr e ↦ rw e v
    ]
