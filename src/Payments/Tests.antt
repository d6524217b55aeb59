-- ===== src/Payments/Tests.antt =====
-- Runs of the payment stores and of the reconciler at concrete inputs.
use meterkit.Prelude.{
  ok, String, ◌≡◌, refl, true, Option, none, some, List, [], ◌∷◌, ◌==◌, if◌then◌else◌, subst, err,
  inl,
}
use meterkit.Platform.{Runtime, solana_devnet}
use meterkit.Policies.Tests.{platform}
use meterkit.Authorization.Budget.{fingerprint}
use meterkit.Payments.Standalone.{Tables, save-has}
use meterkit.Payments.Standalone
use meterkit.Payments.{Payment, finalized, failed, payment_replayed, parse_payment}
use meterkit.Payments.Memory.{MemoryStore, reserve_authorization}
use meterkit.Payments.Memory
use meterkit.Payments.Table.{
  Row, save, has, mark_finalized, mark_failed, matches, set_status, conflicts,
  list_confirmed_signatures,
}
use meterkit.Payments.Settling.{
  Call, saves, marks_finalized, marks_failed, run, HasRow, run-settled,
}
use meterkit.Payments.Finality.{
  Statuses, finalized, null, Reconciler, make_reconciler, payment_table, reconcile,
}
use meterkit.Payments.Reconciling.{IsInconclusive}

abbrev payment : Payment
payment = record {
  id = "p1";
  product_id = "api";
  payer = "payer";
  pay_to = "seller";
  mint = "usdc";
  amount_atomic = 50;
  network = solana_devnet;
  signature = "sig1";
  settled_at = 7;
  status = finalized;
}

abbrev other : Payment
other = record payment { id = "p2"; signature = "sig2"; settled_at = 9 }

abbrev uid_of : String → String → Option String
uid_of owner slug = some "uid"

abbrev calls : List Call
calls = saves payment ∷ saves other ∷ saves payment ∷ marks_failed "sig1" ∷ []

payment_code : Unit {0}
unfolding run parse_payment save mark_finalized mark_failed matches set_status conflicts
    list_confirmed_signatures payment_table reconcile make_reconciler Memory.save Memory.has has
    reserve_authorization
payment_code = tt

-- A saved payment starts as confirmed, and the second save of a signature is a replay.
saves_test :
    (list_confirmed_signatures 100 (run uid_of [] (saves payment ∷ saves other ∷ []))
      ≡ "sig1" ∷ "sig2" ∷ [])
    × (save uid_of (record payment { id = "p3" }) (run uid_of [] calls) ≡ err payment_replayed)
unfolding payment_code
saves_test = (refl, refl)

-- A fingerprint is reserved once.
reserves_test : (reserve_authorization "f" (record { records = []; authorizations = [] })).1 ≡ true
unfolding payment_code
reserves_test = refl

abbrev settled_row : Row
settled_row = record { payment = record payment { status = failed }; product_uid = "uid" }

run-settled_example :
    HasRow "p1" (run uid_of (run uid_of [] calls) (marks_finalized "sig1" ∷ [])) settled_row
unfolding payment_code
run-settled_example =
    run-settled uid_of "p1" (run uid_of [] calls) (marks_finalized "sig1" ∷ []) refl refl

-- The first URL fails, and the second answers that the first listed signature is finalized.
abbrev request : String → List String → Option Statuses
request url xs =
    if url == "bad"
    then none
    else some
        (some (record { confirmation_status = some finalized; err = null }) ∷ none ∷ none ∷ [])

abbrev reconciler : Reconciler
reconciler = record { missing_checks = []; rpc_urls = "bad" ∷ "good" ∷ []; last_evidence = none }

abbrev two : List Call
two = saves payment ∷ saves other ∷ []

-- An RPC that knows none of the signatures.
abbrev forgetful : String → List String → Option Statuses
forgetful url xs = some (none ∷ none ∷ [])

forgetful-IsInconclusive :
    (url : String) (xs : List String) (vs : Statuses)
    → forgetful url xs ≡ some vs
    → IsInconclusive vs
forgetful-IsInconclusive url xs vs h =
    let same : none ∷ none ∷ [] ≡ vs = cc in subst IsInconclusive same (inl refl, (inl refl, tt))

-- A platform with one digest.
abbrev hashing : Runtime
hashing = record platform {
  sha256_hex = λ s. "0123456789abcdef0123456789abcdef0123456789abcdef0123456789abcdef";
}

abbrev no_payments : Tables
no_payments = record { consumed_payments = []; authorization_reservations = [] }

consumes : (t : Tables) × (Standalone.save hashing payment no_payments ≡ ok t)
unfolding payment_code Standalone.save fingerprint
consumes = (_, refl)
