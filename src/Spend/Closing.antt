-- ===== src/Spend/Closing.antt =====
-- A row and the tables under the UPDATE of `finishAllowanceReservation`.
use meterkit.Prelude.{
  ℕ, ◌+◌, ◌-◌, ◌≤◌, String, ◌≡◌, refl, true, some, ◌==◌, if◌then◌else◌, nat_eq, modify_where, arith,
}
use meterkit.Spend.{
  Allowance, Reservation, Ledger, Outcome, consumed, released, exhausted, is_reserved, settle,
  unhold, close, row_check,
}
use meterkit.Spend.Invariant.{
  share, is_consumed, row_check-IsBounded, IsBounded-row_check, checked-some,
}

-- What `settle` makes of a row whose held amount suffices.
pub settled : Outcome → ℕ → Allowance → Allowance
settled consumed amount a = record a {
  reserved_atomic = a.reserved_atomic - amount;
  spent_atomic = a.spent_atomic + amount;
  status = if nat_eq (a.spent_atomic + amount) a.max_atomic then exhausted else a.status;
}
settled released amount a = record a { reserved_atomic = a.reserved_atomic - amount }

pub settled-row_check :
    (o : Outcome) (amount : ℕ) (a : Allowance)
    → row_check a ≡ true
    → amount ≤ a.reserved_atomic
    → row_check (settled o amount a) ≡ true
unfolding settled
settled-row_check consumed amount a h le =
    let b = row_check-IsBounded a h in IsBounded-row_check _ (omega arith)
settled-row_check released amount a h le =
    let b = row_check-IsBounded a h in IsBounded-row_check _ (omega arith)

pub settle-settled :
    (o : Outcome) (amount : ℕ) (a : Allowance)
    → row_check a ≡ true
    → amount ≤ a.reserved_atomic
    → settle o amount a ≡ some (settled o amount a)
unfolding settle unhold settled
settle-settled consumed amount a h le =
    ground
      (arith, checked-some (settled consumed amount a), settled-row_check consumed amount a h le)
settle-settled released amount a h le =
    ground
      (arith, checked-some (settled released amount a), settled-row_check released amount a h le)

pub settled-address :
    (o : Outcome) (amount : ℕ) (a : Allowance) → (settled o amount a).address ≡ a.address
unfolding settled
settled-address consumed amount a = refl
settled-address released amount a = refl

-- A row of `agent_allowances` under the UPDATE for `r`.
abbrev pub settle_row : Outcome → Reservation → Allowance → Allowance
settle_row o r a = if a.address == r.allowance_address then settled o r.amount_atomic a else a

pub settle_row-address :
    (o : Outcome) (r : Reservation) (a : Allowance) → (settle_row o r a).address ≡ a.address
settle_row-address o r a = ground (arith, settled-address o r.amount_atomic a)

pub settle_row-held :
    (o : Outcome) (r : Reservation) (a : Allowance)
    → is_reserved r.status ≡ true
    → share is_reserved a.address r ≤ a.reserved_atomic
    → (settle_row o r a).reserved_atomic + share is_reserved a.address r
      ≡ a.reserved_atomic + share is_reserved a.address (close o r)
unfolding settled close
settle_row-held consumed r a open_ le = ground arith
settle_row-held released r a open_ le = ground arith

pub settle_row-spent :
    (o : Outcome) (r : Reservation) (a : Allowance)
    → is_reserved r.status ≡ true
    → (settle_row o r a).spent_atomic + share is_consumed a.address r
      ≡ a.spent_atomic + share is_consumed a.address (close o r)
unfolding settled close
settle_row-spent consumed r a open_ = ground arith
settle_row-spent released r a open_ = ground arith

-- The tables after a reservation `r` was found open and is closed by `o`.
unfoldable pub after : Outcome → Reservation → String → Ledger → Ledger
after o r id l = record {
  allowances =
      modify_where (λ a. a.address == r.allowance_address) (settled o r.amount_atomic) l.allowances;
  reservations = modify_where (λ q. q.reservation_id == id) (close o) l.reservations;
}
