-- ===== src/Spend/History.antt =====
-- The ledger under any sequence of calls of the store, in any order and at any times.
use meterkit.Prelude.{ℕ, String, inl, inr, Option, List, [], ◌∷◌, Result, ok, err, Result-cases}
use meterkit.Spend.{
  AllowanceRecord, ReservationInput, Ledger, SpendError, Observation, Outcome, consumed, released,
  save_allowance, delete_allowance_metadata, revoke_allowance, begin_allowance_revocation,
  set_allowance_observation_status, reserve_allowance_spend, finish_allowance_reservation,
  release_expired, consume_allowance_spend, release_allowance_spend,
}
use meterkit.Spend.Invariant.{IsLedger}
use meterkit.Spend.Settling.{finish_allowance_reservation-IsLedger}
use meterkit.Spend.Holding.{reserve-IsLedger}
use meterkit.Spend.Expiry.{release_expired-IsLedger}
use meterkit.Spend.Deleting.{delete_allowance_metadata-IsLedger}
use meterkit.Spend.Upkeep.{
  save_allowance-IsLedger, revoke_allowance-IsLedger, begin_allowance_revocation-IsLedger,
  set_allowance_observation_status-IsLedger,
}

abbrev pub empty : Ledger
empty = record { allowances = []; reservations = [] }

-- A call of a client of the store.
pub data Call : Type 0 where
  saves : AllowanceRecord → Call
  deletes : (owner address : String) → Call
  revokes : (owner address : String) → Option String → Call
  begins_revocation : (owner address : String) → Call
  observes : (address : String) → Observation → Call
  reserves : ReservationInput → Call
  consumes : (id : String) → Call
  releases : (id : String) → Call
  cleans : Call

-- A call that throws has rolled back.
abbrev pub keep {ℓ} : {A : Type ℓ} → Ledger → Result SpendError (Ledger × A) → Ledger
keep l (ok (l', _)) = l'
keep l (err e) = l

abbrev pub keep_saved : Ledger → Result SpendError Ledger → Ledger
keep_saved l (ok l') = l'
keep_saved l (err e) = l

unfoldable pub step : Ledger → ℕ × Call → Ledger
unfolding consume_allowance_spend release_allowance_spend
step l (now, saves a) = keep_saved l (save_allowance now a l)
step l (now, deletes owner address) = (delete_allowance_metadata owner address l).0
step l (now, revokes owner address s) = (revoke_allowance now owner address s l).0
step l (now, begins_revocation owner address) = (begin_allowance_revocation owner address l).0
step l (now, observes address o) = (set_allowance_observation_status address o l).0
step l (now, reserves i) = keep l (reserve_allowance_spend now i l)
step l (now, consumes id) = keep l (consume_allowance_spend id l)
step l (now, releases id) = keep l (release_allowance_spend id l)
step l (now, cleans) = keep l (release_expired now l)

unfoldable pub run : Ledger → List (ℕ × Call) → Ledger
run l [] = l
run l (c ∷ cs) = run (step l c) cs

finish-keeps :
    (id : String) (o : Outcome) (l : Ledger)
    → IsLedger l
    → IsLedger (keep l (finish_allowance_reservation id o l))
finish-keeps id o l v = let (p, e, v') = finish_allowance_reservation-IsLedger id o l v in rw e v'

pub step-IsLedger : (l : Ledger) (c : ℕ × Call) → IsLedger l → IsLedger (step l c)
unfolding step
step-IsLedger l (now, saves a) v = elim (Result-cases (save_allowance now a l)) [
  | inl (l', e) ↦ rw e (save_allowance-IsLedger now a l l' v e)
  | inr (x, e) ↦ rw e v
]
step-IsLedger l (now, deletes owner address) v =
    delete_allowance_metadata-IsLedger owner address l v
step-IsLedger l (now, revokes owner address s) v = revoke_allowance-IsLedger now owner address s l v
step-IsLedger l (now, begins_revocation owner address) v =
    begin_allowance_revocation-IsLedger owner address l v
step-IsLedger l (now, observes address o) v =
    set_allowance_observation_status-IsLedger address o l v
step-IsLedger l (now, reserves i) v = elim (Result-cases (reserve_allowance_spend now i l)) [
  | inl ((l', r), e) ↦ rw e ((reserve-IsLedger now i l l' r v e).0)
  | inr (x, e) ↦ rw e v
]
step-IsLedger l (now, consumes id) v = finish-keeps id consumed l v
step-IsLedger l (now, releases id) v = finish-keeps id released l v
step-IsLedger l (now, cleans) v = let (e, v') = release_expired-IsLedger now l v in rw e v'

pub run-IsLedger : (l : Ledger) (cs : List (ℕ × Call)) → IsLedger l → IsLedger (run l cs)
unfolding run
run-IsLedger l [] v = v
run-IsLedger l (c ∷ cs) v = run-IsLedger (step l c) cs (step-IsLedger l c v)

pub empty-IsLedger : IsLedger empty
empty-IsLedger = record {
  funded = tt;
  addresses_distinct = tt;
  ids_distinct = tt;
  keys_distinct = tt;
  owned = tt;
}

-- After any calls on an empty store the ledger is consistent: every row meets its constraint, its
-- `reserved_atomic` and `spent_atomic` are the sums of its open and its consumed reservations,
-- addresses, reservation ids and payment keys are distinct, and no reservation is orphaned.
pub run-empty-IsLedger : (cs : List (ℕ × Call)) → IsLedger (run empty cs)
run-empty-IsLedger cs = run-IsLedger empty cs empty-IsLedger
