-- ===== src/Spend/Invariant.antt =====
-- What every reachable ledger satisfies. Each row keeps its table's constraint; `reserved_atomic`
-- and `spent_atomic` are the sums of its open and of its consumed reservations.
use meterkit.Prelude.{
  ℕ, ◌+◌, ◌≤◌, ◌<◌, String, ◌≡◌, Bool, true, false, ◌&&◌, some, List, map, ◌==◌, if◌then◌else◌, All,
  Distinct, mem, sum_by, arith,
}
use meterkit.Spend.{
  Allowance, Reservation, ReservationStatus, consumed, Ledger, row_check, checked, is_reserved,
  scopes_octets, numeric_bound,
}

abbrev pub is_consumed : ReservationStatus → Bool
is_consumed consumed = true
is_consumed _ = false

-- What one reservation adds to the account of an allowance.
abbrev pub share : (ReservationStatus → Bool) → String → Reservation → ℕ
share p address r = if p r.status && address == r.allowance_address then r.amount_atomic else 0

abbrev pub total : (ReservationStatus → Bool) → String → List Reservation → ℕ
total p address = sum_by (share p address)

pub record IsFunded (rs : List Reservation) (a : Allowance) : Type 0 where
  pub bounded : row_check a ≡ true
  pub held : a.reserved_atomic ≡ total is_reserved a.address rs
  pub spent : a.spent_atomic ≡ total is_consumed a.address rs

abbrev pub addresses : List Allowance → List String
addresses = map (λ a. a.address)

abbrev pub reservation_ids : List Reservation → List String
reservation_ids = map (λ r. r.reservation_id)

abbrev pub payment_keys : List Reservation → List String
payment_keys = map (λ r. r.payment_key)

-- Each reservation belongs to one of the addresses.
abbrev pub IsOwned : List Reservation → List String → Type 0
IsOwned rs known = All (λ r. mem r.allowance_address known ≡ true) rs

pub record IsLedger (l : Ledger) : Type 0 where
  pub funded : All (IsFunded l.reservations) l.allowances
  pub addresses_distinct : Distinct (addresses l.allowances)
  pub ids_distinct : Distinct (reservation_ids l.reservations)
  pub keys_distinct : Distinct (payment_keys l.reservations)
  pub owned : IsOwned l.reservations (addresses l.allowances)

-- The constraint of a row, as an order of numbers.
pub record IsBounded (a : Allowance) : Type 0 where
  pub max_pos : 0 < a.max_atomic
  pub per_pos : 0 < a.per_request_atomic
  pub per_le_max : a.per_request_atomic ≤ a.max_atomic
  pub within : a.spent_atomic + a.reserved_atomic ≤ a.max_atomic
  pub max_lt : a.max_atomic < numeric_bound
  pub scopes_le : scopes_octets a.resource_scopes ≤ 32_768

pub row_check-IsBounded : (a : Allowance) → row_check a ≡ true → IsBounded a
unfolding row_check
row_check-IsBounded a h = ground arith

pub IsBounded-row_check : (a : Allowance) → IsBounded a → row_check a ≡ true
unfolding row_check
IsBounded-row_check a h = ground arith

pub checked-some : (a : Allowance) → row_check a ≡ true → checked a ≡ some a
unfolding checked
checked-some a h = rw h

pub checked-eq-some :
    (a : Allowance) {b : Allowance} → checked a ≡ some b → (b ≡ a) × (row_check a ≡ true)
unfolding checked
checked-eq-some a h = ground arith
