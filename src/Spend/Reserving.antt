-- ===== src/Spend/Reserving.antt =====
-- Reserving a spend: `reserveAllowanceSpend` succeeds exactly when the request is within every
-- limit of the row.
use meterkit.Prelude.{
  ℕ, ◌+◌, ◌≤◌, ◌<◌, ◌≡◌, refl, ◌↔◌, inl, inr, true, false, ◌||◌, some, List, [], ◌∷◌, ◌==◌, eq_iff,
  mem, leb, All-both, any, any-mem, find, find-only, modify_where, update_where, update_where-total,
  Option-cases, ok, arith, reject_if-ok, or_throw-ok, bind-ok, le→ltb-false, lt→leb-false,
}
use meterkit.Spend.{
  Allowance, Reservation, ReservationInput, Ledger, is_active, hold, to_reservation,
  check_reservation, place, row_check, checked, reserve_allowance_spend,
}
use meterkit.Spend.Invariant.{
  IsFunded, IsLedger, reservation_ids, payment_keys, row_check-IsBounded, IsBounded-row_check,
  checked-some,
}

-- When a request may be reserved against the row `a`.
pub record IsReservable (now : ℕ) (i : ReservationInput) (l : Ledger) (a : Allowance) : Type 0 where
  pub positive : 0 < i.amount_atomic
  pub future : now < i.expires_at
  pub found : find (λ b. b.address == i.allowance_address) l.allowances ≡ some a
  pub fresh_key : mem i.payment_key (payment_keys l.reservations) ≡ false
  pub fresh_id : mem i.reservation_id (reservation_ids l.reservations) ≡ false
  pub is_live : is_active a.status ≡ true
  pub unexpired : now < a.expires_at
  pub within_request : i.amount_atomic ≤ a.per_request_atomic
  pub within_max : a.spent_atomic + a.reserved_atomic + i.amount_atomic ≤ a.max_atomic

-- The tables after a reservation was made.
unfoldable pub holding : ReservationInput → Ledger → Ledger
holding i l = record {
  allowances =
      modify_where (λ b. b.address == i.allowance_address) (hold i.amount_atomic) l.allowances;
  reservations = to_reservation i ∷ l.reservations;
}

any-fresh :
    (i : ReservationInput) (rs : List Reservation)
    → mem i.payment_key (payment_keys rs) ≡ false
    → mem i.reservation_id (reservation_ids rs) ≡ false
    → any (λ q. q.reservation_id == i.reservation_id || q.payment_key == i.payment_key) rs ≡ false
any-fresh i [] k d = refl
any-fresh i (r ∷ rs) k d = ground (
  arith,
  eq_iff r.reservation_id i.reservation_id,
  eq_iff i.reservation_id r.reservation_id,
  eq_iff r.payment_key i.payment_key,
  eq_iff i.payment_key r.payment_key,
  any-fresh i rs,
)

any-fresh_id :
    (i : ReservationInput) (rs : List Reservation)
    → any (λ q. q.reservation_id == i.reservation_id || q.payment_key == i.payment_key) rs ≡ false
    → mem i.reservation_id (reservation_ids rs) ≡ false
any-fresh_id i [] h = refl
any-fresh_id i (r ∷ rs) h = ground (
  arith,
  eq_iff r.reservation_id i.reservation_id,
  eq_iff i.reservation_id r.reservation_id,
  any-fresh_id i rs,
)

pub hold-row_check :
    (n : ℕ) (a : Allowance)
    → row_check a ≡ true
    → a.spent_atomic + a.reserved_atomic + n ≤ a.max_atomic
    → row_check (hold n a) ≡ true
unfolding hold
hold-row_check n a h le = let b = row_check-IsBounded a h in IsBounded-row_check _ (omega arith)

module _ (now : ℕ) (i : ReservationInput) (l : Ledger) (a : Allowance) (v : IsLedger l) where
  module _ (c : IsReservable now i l a) where
    holds :
        update_where
          (λ b. b.address == i.allowance_address)
          (λ b. checked (hold i.amount_atomic b))
          l.allowances
        ≡ some (holding i l).allowances
    unfolding holding
    holds =
        update_where-total
          (λ b. IsFunded l.reservations b × ((b.address == i.allowance_address) ≡ true → b ≡ a))
          (λ b. b.address == i.allowance_address) (λ b. checked (hold i.amount_atomic b))
          (hold i.amount_atomic) l.allowances
          (λ b p e.
            checked-some (hold i.amount_atomic b)
              (hold-row_check i.amount_atomic b p.0.bounded (rw (p.1 e) c.within_max)))
          (All-both (IsFunded l.reservations)
            (λ b. (b.address == i.allowance_address) ≡ true → b ≡ a) l.allowances v.funded
            (find-only (λ b. b.address) i.allowance_address l.allowances v.addresses_distinct
              c.found))

    check_reservation-ok : check_reservation now i a l ≡ ok tt
    unfolding check_reservation
    check_reservation-ok = rw (
      any-mem (λ r. r.payment_key) i.payment_key l.reservations,
      c.fresh_key,
      c.is_live,
      lt→leb-false _ _ c.unexpired,
      le→ltb-false _ _ c.within_request,
      le→ltb-false _ _ c.within_max,
    )

    pub reserve-eq : reserve_allowance_spend now i l ≡ ok (holding i l, to_reservation i)
    unfolding reserve_allowance_spend holding
    reserve-eq = rw (
      lt→leb-false _ _ c.positive,
      lt→leb-false _ _ c.future,
      c.found,
      check_reservation-ok,
      holds,
      any-fresh i l.reservations c.fresh_key c.fresh_id,
    )

place-fresh_id :
    (i : ReservationInput) (l : Ledger) {p : Ledger × Reservation}
    → place i l ≡ ok p
    → mem i.reservation_id (reservation_ids l.reservations) ≡ false
unfolding place to_reservation
place-fresh_id i l h =
    elim (Option-cases (
      update_where (λ b. b.address == i.allowance_address) (λ b. checked (hold i.amount_atomic b))
        l.allowances)) [
          | inl e ↦ cc (rw e at h)
          | inr (rows, e) ↦ any-fresh_id i l.reservations (ground (arith, rw e at h))
        ]

-- The guards on the row.
record HasPassed (now : ℕ) (i : ReservationInput) (a : Allowance) (l : Ledger) : Type 0 where
  pub fresh_key : any (λ r. r.payment_key == i.payment_key) l.reservations ≡ false
  is_live : is_active a.status ≡ true
  unexpired : now < a.expires_at
  within_request : i.amount_atomic ≤ a.per_request_atomic
  pub within_max : a.spent_atomic + a.reserved_atomic + i.amount_atomic ≤ a.max_atomic

check_reservation-HasPassed :
    (now : ℕ) (i : ReservationInput) (a : Allowance) (l : Ledger) {u : Unit {0}}
    → check_reservation now i a l ≡ ok u
    → HasPassed now i a l
unfolding check_reservation
check_reservation-HasPassed now i a l h = ground arith

-- What a reservation that succeeded has passed, whatever the ledger.
pub reserve-IsReservable :
    (now : ℕ) (i : ReservationInput) (l : Ledger) {p : Ledger × Reservation}
    → reserve_allowance_spend now i l ≡ ok p
    → (a : Allowance) × IsReservable now i l a
unfolding reserve_allowance_spend
reserve-IsReservable now i l h =
    let (valid, h₁) = reject_if-ok (leb i.amount_atomic 0 || leb i.expires_at now) _ h in
    let (a, found, h₂) =
      or_throw-ok (find (λ b. b.address == i.allowance_address) l.allowances) _ h₁ in
    let (_, passed, h₃) = bind-ok (check_reservation now i a l) h₂ in
    let c = check_reservation-HasPassed now i a l passed in
    (
      a,
      record {
        positive = ground arith;
        future = ground arith;
        found = found;
        fresh_key = rw (← (any-mem (λ r. r.payment_key) i.payment_key l.reservations)) c.fresh_key;
        fresh_id = place-fresh_id i l h₃;
        is_live = c.is_live;
        unexpired = c.unexpired;
        within_request = c.within_request;
        within_max = c.within_max;
      },
    )

-- On a consistent ledger a reservation succeeds exactly when the request is reservable against the
-- row of its address.
pub reserve-ok_iff :
    (now : ℕ) (i : ReservationInput) (l : Ledger)
    → IsLedger l
    → ((p : Ledger × Reservation) × (reserve_allowance_spend now i l ≡ ok p))
      ↔ ((a : Allowance) × IsReservable now i l a)
reserve-ok_iff now i l v = (
  (λ h. reserve-IsReservable now i l h.1),
  (λ c. ((holding i l, to_reservation i), reserve-eq now i l c.0 v c.1)),
)
