-- ===== src/Spend/Tests.antt =====
-- Runs of the ledger at concrete inputs, and the theorems at inputs that meet their hypotheses.
use meterkit.Prelude.{
  ℕ, ◌*◌, ◌&&◌, ◌≤◌, ◌≡◌, refl, ◌↔◌, none, some, List, [], ◌∷◌, map, filter, leb, arith,
  update_where, ok, err, length,
}
use meterkit.Spend.{
  Allowance, AllowanceRecord, Reservation, ReservationInput, Ledger, is_reserved, save_allowance,
  upsert_allowance, reserve_allowance_spend, finish_allowance_reservation, release_expired,
  row_check, scopes_octets, checked, to_row, merge_row, check_reservation, expired_reservations,
  aggregate_exceeded, reservation_replayed, consume_allowance_spend, release_allowance_spend,
}
use meterkit.Spend.Invariant.{IsLedger}
use meterkit.Spend.Reserving.{IsReservable, reserve-ok_iff}
use meterkit.Spend.Cleaning.{release_times, release_times-IsCleaned, cleaned}
use meterkit.Spend.Accounts.{Traces, run-refines}
use meterkit.Spend.Moving.{account}
use meterkit.Spend.History.{
  Call, saves, reserves, consumes, cleans, empty, step, run, run-empty-IsLedger,
}

-- What a run computes with.
unfoldable pub ledger_code : Unit {0}
unfolding run step save_allowance update_where upsert_allowance reserve_allowance_spend
    finish_allowance_reservation release_expired row_check scopes_octets checked to_row merge_row
    check_reservation expired_reservations consume_allowance_spend release_allowance_spend
ledger_code = tt

-- An allowance of 100 with at most 60 for one request.
abbrev pub budget : AllowanceRecord
budget = record {
  address = "A";
  owner_wallet = "owner";
  delegate_wallet = "agent";
  mint = "usdc";
  max_atomic = 100;
  expires_at = 1000;
  revoked_at = none;
  signature = none;
  per_request_atomic = some 60;
  status = none;
  recipient_scope = none;
  resource_scopes = none;
  starts_at = none;
  observed_commitment = none;
  observed_at = none;
  revocation_signature = none;
}

abbrev pub request : ReservationInput
request = record {
  reservation_id = "r1";
  allowance_address = "A";
  payment_key = "k1";
  amount_atomic = 60;
  expires_at = 50;
}

abbrev second : ReservationInput
second = record {
  reservation_id = "r2";
  allowance_address = "A";
  payment_key = "k2";
  amount_atomic = 40;
  expires_at = 90;
}

abbrev opened : List (ℕ × Call)
opened = (1, saves budget) ∷ (2, reserves request) ∷ (3, reserves second) ∷ []

abbrev spent_all : List (ℕ × Call)
spent_all = (1, saves budget) ∷ (2, reserves request) ∷ (3, consumes "r1") ∷ (4, cleans) ∷ []

-- The third request exceeds what is left, and a known payment key is a replay.
refusals :
    (reserve_allowance_spend 4
        (record second { reservation_id = "r3"; payment_key = "k3"; amount_atomic = 1 })
        (run empty opened)
      ≡ err aggregate_exceeded)
    × (reserve_allowance_spend 4 (record second { reservation_id = "r3" }) (run empty opened)
        ≡ err reservation_replayed)
unfolding ledger_code
refusals = (refl, refl)

run-empty-IsLedger_example : IsLedger (run empty spent_all)
run-empty-IsLedger_example = run-empty-IsLedger spent_all

reserve-ok_iff_example :
    ((p : Ledger × Reservation) × (reserve_allowance_spend 2 request
          (run empty ((1, saves budget) ∷ []))
        ≡ ok p))
    ↔ ((a : Allowance) × IsReservable 2 request (run empty ((1, saves budget) ∷ [])) a)
reserve-ok_iff_example =
    reserve-ok_iff 2 request (run empty ((1, saves budget) ∷ []))
      (run-empty-IsLedger ((1, saves budget) ∷ []))

few :
    length
      (filter (λ r. is_reserved r.status && leb r.expires_at 60) (run empty opened).reservations)
    ≤ 500 * 1
unfolding ledger_code
few = omega arith

release_times-IsCleaned_example :
    (l' : Ledger) × (release_times 1 60 (run empty opened) ≡ ok l')
    × IsLedger l'
    × (l'.reservations ≡ map (cleaned 60) (run empty opened).reservations)
release_times-IsCleaned_example =
    release_times-IsCleaned 1 60 (run empty opened) (run-empty-IsLedger opened) few

-- One of the two reservations has expired at 60.
expired_test : length (expired_reservations 60 (run empty opened).reservations) ≡ 1
unfolding ledger_code
expired_test = refl

run-refines_example :
    Traces "A" spent_all (record { held = 0; paid = 0 }) (account "A" (run empty spent_all))
run-refines_example = run-refines "A" spent_all

-- One payment of 60 has been made, and nothing is held.
paid_test : account "A" (run empty spent_all) ≡ record { held = 0; paid = 60 }
unfolding ledger_code account
paid_test = refl
