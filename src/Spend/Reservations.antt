-- ===== src/Spend/Reservations.antt =====
-- The methods of `PostgresStore` in packages/database/src/index.ts that reserve, consume, release and
-- expire spends.
use meterkit.Prelude.{
  ℕ, ◌+◌, ◌-◌, String, Bool, true, false, ◌&&◌, ◌||◌, Option, none, some, List, [], ◌∷◌, map, ◌==◌,
  ltb, leb, nat_eq, if◌then◌else◌, any, find, filter, take, length, sort_by, mem, modify_where,
  update_where, Result, ok, ◌>>=◌, ◌>>◌, reject_if, or_throw, and_then, not,
}
use meterkit.Spend.Tables.{
  exhausted, reserved, consumed, released, Allowance, Reservation, ReservationInput, Ledger,
  SpendError, reservation_invalid, not_found, reservation_replayed, not_active, allowance_expired,
  per_request_exceeded, aggregate_exceeded, checked, is_active, is_reserved, Outcome,
  outcome_status,
}
use meterkit.Spend.Allowances.{with_allowances}

unfoldable pub to_reservation : ReservationInput → Reservation
to_reservation i = record {
  reservation_id = i.reservation_id;
  allowance_address = i.allowance_address;
  payment_key = i.payment_key;
  amount_atomic = i.amount_atomic;
  status = reserved;
  expires_at = i.expires_at;
}

-- The guards of `reserveAllowanceSpend` on the locked row, in their order.
unfoldable pub check_reservation :
    ℕ → ReservationInput → Allowance → Ledger → Result SpendError (Unit {0})
check_reservation now i a l = do
  reject_if (any (λ r. r.payment_key == i.payment_key) l.reservations) reservation_replayed
  reject_if (not (is_active a.status)) not_active
  reject_if (leb a.expires_at now) allowance_expired
  reject_if (ltb a.per_request_atomic i.amount_atomic) per_request_exceeded
  reject_if (ltb a.max_atomic (a.spent_atomic + a.reserved_atomic + i.amount_atomic))
      aggregate_exceeded

-- INSERT: the primary key and the UNIQUE key raise error 23505, which is reported as a replay.
unfoldable pub insert_reservation : Reservation → Ledger → Result SpendError Ledger
insert_reservation r l = do
  reject_if
      (any (λ q. q.reservation_id == r.reservation_id || q.payment_key == r.payment_key)
        l.reservations)
      reservation_replayed
  ok (record l { reservations = r ∷ l.reservations })

unfoldable pub hold : ℕ → Allowance → Allowance
hold amount a = record a { reserved_atomic = a.reserved_atomic + amount }

-- The two writes of `reserveAllowanceSpend`.
unfoldable pub place : ReservationInput → Ledger → Result SpendError (Ledger × Reservation)
unfolding with_allowances insert_reservation
place i l = do
  l₁ ← with_allowances l (
      update_where (λ a. a.address == i.allowance_address) (λ a. checked (hold i.amount_atomic a))
        l.allowances)
  l₂ ← insert_reservation (to_reservation i) l₁
  ok (l₂, to_reservation i)

unfoldable pub reserve_allowance_spend :
    ℕ → ReservationInput → Ledger → Result SpendError (Ledger × Reservation)
unfolding place to_reservation hold
reserve_allowance_spend now i l = do
  reject_if (leb i.amount_atomic 0 || leb i.expires_at now) reservation_invalid
  a ← or_throw (find (λ a. a.address == i.allowance_address) l.allowances) not_found
  check_reservation now i a l
  place i l

-- `reserved_atomic-$2`: a negative result breaks the CHECK.
unfoldable pub unhold : ℕ → Allowance → Option Allowance
unhold amount a =
    if leb amount a.reserved_atomic
    then checked (record a { reserved_atomic = a.reserved_atomic - amount })
    else none

-- The UPDATE of `finishAllowanceReservation`; each right side reads the old row.
unfoldable pub settle : Outcome → ℕ → Allowance → Option Allowance
settle consumed amount a =
    if leb amount a.reserved_atomic
    then checked (record a {
      reserved_atomic = a.reserved_atomic - amount;
      spent_atomic = a.spent_atomic + amount;
      status = if nat_eq (a.spent_atomic + amount) a.max_atomic then exhausted else a.status;
    })
    else none
settle released amount a = unhold amount a

unfoldable pub close : Outcome → Reservation → Reservation
close o r = record r { status = outcome_status o }

unfoldable pub settle_open :
    String → Outcome → Ledger → Reservation → Result SpendError (Ledger × Bool)
unfolding with_allowances settle close unhold
settle_open id o l r = do
  l₁ ←
      with_allowances l (
        update_where (λ a. a.address == r.allowance_address) (settle o r.amount_atomic)
          l.allowances)
  ok (
    record l₁ {
      reservations = modify_where (λ q. q.reservation_id == id) (close o) l₁.reservations;
    },
    true,
  )

-- A missing reservation and one that is settled already both roll back and return false.
unfoldable pub settle_found :
    String → Outcome → Ledger → Option Reservation → Result SpendError (Ledger × Bool)
unfolding settle_open
settle_found id o l none = ok (l, false)
settle_found id o l (some r) = if is_reserved r.status then settle_open id o l r else ok (l, false)

unfoldable pub finish_allowance_reservation :
    String → Outcome → Ledger → Result SpendError (Ledger × Bool)
unfolding settle_found
finish_allowance_reservation id o l =
    settle_found id o l (find (λ r. r.reservation_id == id) l.reservations)

unfoldable pub consume_allowance_spend : String → Ledger → Result SpendError (Ledger × Bool)
consume_allowance_spend id = finish_allowance_reservation id consumed

unfoldable pub release_allowance_spend : String → Ledger → Result SpendError (Ledger × Bool)
release_allowance_spend id = finish_allowance_reservation id released

-- The reservations that one `cleanupExpired` takes: status 'reserved', at or past their expiry,
-- oldest expiry first, at most 500.
unfoldable pub expired_reservations : ℕ → List Reservation → List Reservation
expired_reservations now rs =
    take 500
      (sort_by (λ r. r.expires_at) (filter (λ r. is_reserved r.status && leb r.expires_at now) rs))

unfoldable pub ids : List Reservation → List String
ids = map (λ r. r.reservation_id)

-- The loop over the rows that were selected.
unfoldable pub unhold_all : List Reservation → List Allowance → Option (List Allowance)
unhold_all [] rows = some rows
unhold_all (r ∷ rs) rows =
    and_then (update_where (λ a. a.address == r.allowance_address) (unhold r.amount_atomic) rows)
      (unhold_all rs)

-- The part of `cleanupExpired` that works on the ledger, with the count that it reports.
unfoldable pub release_expired : ℕ → Ledger → Result SpendError (Ledger × ℕ)
unfolding with_allowances unhold_all unhold close ids
release_expired now l = do
  let taken = expired_reservations now l.reservations
  l₁ ← with_allowances l (unhold_all taken l.allowances)
  ok (
    record l₁ {
      reservations =
          modify_where (λ r. mem r.reservation_id (ids taken)) (close released) l₁.reservations;
    },
    length taken,
  )
