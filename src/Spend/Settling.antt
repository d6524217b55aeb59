-- ===== src/Spend/Settling.antt =====
-- Consuming or releasing a reservation: `finishAllowanceReservation` never breaks a constraint on a
-- reachable ledger, keeps the invariant, and works once for each reservation.
use meterkit.Prelude.{
  ◌+◌, ◌≤◌, String, ◌≡◌, refl, inl, inr, Bool, true, false, none, some, ◌==◌, mem, find,
  modify_where, update_where, update_where-total, map-modify_where, All-modify_where,
  sum_by-modify_where, le-sum_by, Bool-cases, Option-cases, ok, arith,
}
use meterkit.Spend.{
  Allowance, Reservation, ReservationStatus, Ledger, Outcome, is_reserved, settle, close,
  finish_allowance_reservation,
}
use meterkit.Spend.Invariant.{IsFunded, IsLedger, share, total, is_consumed, addresses}
use meterkit.Spend.Closing.{
  settled-row_check, settled, settle-settled, settled-address, settle_row-address, after,
  settle_row-held, settle_row-spent, settle_row,
}

module _ (o : Outcome) (r : Reservation) (id : String) (l : Ledger) (v : IsLedger l)
    (found : find (λ q. q.reservation_id == id) l.reservations ≡ some r)
    (open_ : is_reserved r.status ≡ true) where
  pub total-close :
      (p : ReservationStatus → Bool) (address : String)
      → total p address (modify_where (λ q. q.reservation_id == id) (close o) l.reservations)
          + share p address r
        ≡ total p address l.reservations + share p address (close o r)
  total-close p address =
      sum_by-modify_where (λ q. q.reservation_id) id (close o) (share p address) l.reservations
        v.ids_distinct found

  held-suffices :
      (a : Allowance)
      → IsFunded l.reservations a
      → (a.address == r.allowance_address) ≡ true
      → r.amount_atomic ≤ a.reserved_atomic
  held-suffices a f e =
      let le : share is_reserved a.address r ≤ total is_reserved a.address l.reservations =
        le-sum_by _ (share is_reserved a.address) l.reservations found in
      ground (arith, le, f.held)

  -- No row breaks its constraint.
  pub settle-total :
      update_where (λ a. a.address == r.allowance_address) (settle o r.amount_atomic) l.allowances
      ≡ some (after o r id l).allowances
  unfolding after
  settle-total =
      update_where-total (IsFunded l.reservations) (λ a. a.address == r.allowance_address)
        (settle o r.amount_atomic) (settled o r.amount_atomic) l.allowances
        (λ a f e. settle-settled o r.amount_atomic a f.bounded (held-suffices a f e)) v.funded

  pub finish-eq : finish_allowance_reservation id o l ≡ ok (after o r id l, true)
  unfolding finish_allowance_reservation
  finish-eq = rw (found, open_, settle-total) (unfold after in refl)

  settle_row-IsFunded :
      (a : Allowance)
      → IsFunded l.reservations a
      → IsFunded (after o r id l).reservations (settle_row o r a)
  unfolding after
  settle_row-IsFunded a f =
      let le : share is_reserved a.address r ≤ total is_reserved a.address l.reservations =
        le-sum_by _ (share is_reserved a.address) l.reservations found in
      record {
        bounded = elim (Bool-cases (a.address == r.allowance_address)) [
          | inl e ↦ rw e (settled-row_check o r.amount_atomic a f.bounded (held-suffices a f e))
          | inr e ↦ rw e (f.bounded)
        ];
        held = rw (settle_row-address o r a) (
            omega (
              arith,
              f.held,
              total-close is_reserved a.address,
              settle_row-held o r a open_ (rw f.held le),
            ));
        spent = rw (settle_row-address o r a) (
            omega
              (arith, f.spent, total-close is_consumed a.address, settle_row-spent o r a open_));
      }

  pub after-addresses : addresses (after o r id l).allowances ≡ addresses l.allowances
  unfolding after
  after-addresses =
      map-modify_where (λ a. a.address) (λ a. a.address == r.allowance_address)
        (settled o r.amount_atomic) l.allowances (settled-address o r.amount_atomic)

  pub after-IsLedger : IsLedger (after o r id l)
  unfolding after close
  after-IsLedger = record {
    funded =
        All-modify_where (IsFunded (after o r id l).reservations)
          (λ a. a.address == r.allowance_address) (settled o r.amount_atomic) l.allowances
          settle_row-IsFunded v.funded;
    addresses_distinct = rw after-addresses v.addresses_distinct;
    ids_distinct =
        rw
          (map-modify_where (λ q. q.reservation_id) (λ q. q.reservation_id == id) (close o)
            l.reservations (λ q. refl))
          v.ids_distinct;
    keys_distinct =
        rw
          (map-modify_where (λ q. q.payment_key) (λ q. q.reservation_id == id) (close o)
            l.reservations (λ q. refl))
          v.keys_distinct;
    owned = rw after-addresses (
        All-modify_where (λ q. mem q.allowance_address (addresses l.allowances) ≡ true)
          (λ q. q.reservation_id == id) (close o) l.reservations (λ q m. ground (arith, m))
          v.owned);
  }

-- On a consistent ledger no settlement throws, and the ledger is consistent afterwards.
pub finish_allowance_reservation-IsLedger :
    (id : String) (o : Outcome) (l : Ledger)
    → IsLedger l
    → (p : Ledger × Bool) × (finish_allowance_reservation id o l ≡ ok p) × IsLedger p.0
finish_allowance_reservation-IsLedger id o l v =
    elim (Option-cases (find (λ q. q.reservation_id == id) l.reservations)) [
      | inl e ↦ ((l, false), unfold finish_allowance_reservation in rw e refl, v)
      | inr (r, e) ↦ elim (Bool-cases (is_reserved r.status)) [
        | inl t ↦ ((after o r id l, true), finish-eq o r id l v e t, after-IsLedger o r id l v e t)
        | inr t ↦ ((l, false), unfold finish_allowance_reservation in rw (e, t) refl, v)
      ]
    ]

pub finish-none :
    (id : String) (o : Outcome) (l : Ledger)
    → find (λ q. q.reservation_id == id) l.reservations ≡ none
    → finish_allowance_reservation id o l ≡ ok (l, false)
unfolding finish_allowance_reservation
finish-none id o l e = rw e

pub finish-settled :
    (id : String) (o : Outcome) (l : Ledger) (r : Reservation)
    → find (λ q. q.reservation_id == id) l.reservations ≡ some r
    → is_reserved r.status ≡ false
    → finish_allowance_reservation id o l ≡ ok (l, false)
unfolding finish_allowance_reservation
finish-settled id o l r e t = rw (e, t)
