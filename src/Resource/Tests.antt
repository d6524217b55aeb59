-- ===== src/Resource/Tests.antt =====
-- Runs of the server at concrete inputs.
use meterkit.Prelude.{
  ℕ, zero, String, ◌≡◌, refl, true, false, none, some, List, [], ◌∷◌, mem, Distinct, All, ok, arith,
  lookup, find, ◌==◌,
}
use meterkit.Authorization.Tests.{
  platform, agent, wallet, usdc, view, funded, funded-IsLedger, guard_code,
}
use meterkit.Authorization.Guarded.{ledger_guard}
use meterkit.Authorization.Budget.{BudgetReservation}
use meterkit.Products.{Product}
use meterkit.Products.Tests.{product, any_uuid}
use meterkit.Payments.{parse_payment}
use meterkit.Payments.Memory.{MemoryStore, reserve_authorization}
use meterkit.Payments.Memory
use meterkit.Payments.Stores.{
  memory_payment_store, memory_payment_store-IsStore, memory_payment_store-IsAuthorizing,
}
use meterkit.Receipts.{is_receipt}
use meterkit.Spend.{Ledger, SpendError, Reservation, is_reserved}
use meterkit.Spend.Invariant.{IsLedger}
use meterkit.Spend.Tests.{ledger_code}
use meterkit.Settlement.{Meta, Reply, found, absent, validate}
use meterkit.Settlement.Tests.{balance}
use meterkit.Settlement.Validating.{IsFoundAt}
use meterkit.Middleware.{Settlement}
use meterkit.Resource.{Payload, Requirements, Options, Server, settle, to_transfer}
use meterkit.Resource.Verify.{Verification, after_verify}
use meterkit.Resource.Verify
use meterkit.Resource.Finish.{
  publish, after_settle, settle_failure, verified_payment_canceled, Call, verifies, settles,
  concludes, step, run, start, transactions, payer_prints,
}
use meterkit.Resource.Settling.{settle-paid}
use meterkit.Resource.Authorizing.{stored, known, run-settles_once, run-passes_once}
use meterkit.Resource.Spending.{IsGivenBack, run-budget-IsLedger, failure-IsGivenBack}

abbrev moved : Meta
moved = record {
  err_is_null = true;
  pre_token_balances = record (balance wallet 90) { mint = usdc } ∷ [];
  post_token_balances =
      record (balance wallet 40) { mint = usdc } ∷ record (balance agent 50) { mint = usdc } ∷ [];
}

abbrev pub request : ℕ → String → Reply
request zero signature = absent
request _ signature = found moved

abbrev sold : Product
sold = record product {
  pay_to = agent;
  resource = "https://api/a";
  asset_mint = usdc;
  price_atomic = 50;
}

abbrev options : Options MemoryStore Ledger SpendError
options = record {
  product = sold;
  store = memory_payment_store;
  settlement_validator = some (validate request 2);
  policies = [];
  on_receipt = λ q. true;
  agent_budget = some (ledger_guard view agent);
}

abbrev server : Server MemoryStore Ledger
server = record {
  store = record { records = []; authorizations = [] };
  budget = funded;
  settled_records = [];
  policy_results = [];
  budget_reservations = [];
  local_authorizations = [];
}

abbrev payload : Payload
payload = record { ref = "o1"; json = "{}"; stable_json = "payment" }

abbrev pub asked : Requirements
asked = record { amount = 50; asset = usdc; pay_to = agent }

abbrev pub answer : Settlement
answer = record { success = true; transaction = some "sig"; payer = some wallet; network = none }

abbrev valid : Verification
valid = record { is_valid = true; payer = some wallet }

-- The second verification and the second settlement are of the same payment, in another object.
abbrev again : Payload
again = record payload { ref = "o2"; stable_json = "other" }

abbrev calls : List (ℕ × String × Call)
calls =
    (20, "r1", verifies payload asked valid)
    ∷ (21, "p1", settles payload asked (some answer))
    ∷ (22, "q1", concludes payload asked answer)
    ∷ (23, "r2", verifies again asked valid)
    ∷ (24, "p2", settles again asked (some answer))
    ∷ []

server_code : Unit {0}
unfolding guard_code ledger_code settle parse_payment memory_payment_store Memory.save Memory.has
    reserve_authorization Verify.reserve_authorization after_verify publish after_settle
    settle_failure verified_payment_canceled step run validate is_receipt
server_code = tt

calls_test :
    (transactions (run platform any_uuid options (start server) calls).settled ≡ "sig" ∷ [])
    × (payer_prints (run platform any_uuid options (start server) calls).passed ≡ "{}" ∷ [])
unfolding server_code
calls_test = (refl, refl)

-- The reservation that a verification makes.
abbrev held : BudgetReservation
held = record {
  reservation_id = "r1";
  authorization_fingerprint = "sha256:A";
  payment_fingerprint = "sha256:payment";
}

abbrev waiting : Server MemoryStore Ledger
waiting =
    (run platform any_uuid options (start server)
      ((20, "r1", verifies payload asked valid) ∷ [])).server

settles_first :
    (s : Server MemoryStore Ledger) × (settle platform options 21 "p1" payload asked
        (some answer)
        server
      ≡ ok (s, answer))
unfolding server_code
settles_first = (_, refl)

settle-paid_example : IsFoundAt request (to_transfer asked ("sig", wallet)) 0 2
settle-paid_example =
    settle-paid platform options request 2 21 "p1" payload asked (some answer) answer
      ("sig", wallet) server settles_first.0 refl (omega arith) settles_first.1 refl

run-settles_once_example :
    Distinct (transactions (run platform any_uuid options (start server) calls).settled)
    × All
        (λ k.
          mem k (
            stored platform any_uuid options memory_payment_store-IsStore
              memory_payment_store-IsAuthorizing
              (run platform any_uuid options (start server) calls).server)
          ≡ true)
        (transactions (run platform any_uuid options (start server) calls).settled)
    × All
        (λ k.
          mem k (
            stored platform any_uuid options memory_payment_store-IsStore
              memory_payment_store-IsAuthorizing server)
          ≡ false)
        (transactions (run platform any_uuid options (start server) calls).settled)
run-settles_once_example =
    run-settles_once platform any_uuid options memory_payment_store-IsStore
      memory_payment_store-IsAuthorizing server calls

run-passes_once_example :
    Distinct (payer_prints (run platform any_uuid options (start server) calls).passed)
    × All
        (λ k.
          mem k (
            known platform any_uuid options memory_payment_store-IsStore
              memory_payment_store-IsAuthorizing
              (run platform any_uuid options (start server) calls).server)
          ≡ true)
        (payer_prints (run platform any_uuid options (start server) calls).passed)
    × All
        (λ k.
          mem k (
            known platform any_uuid options memory_payment_store-IsStore
              memory_payment_store-IsAuthorizing server)
          ≡ false)
        (payer_prints (run platform any_uuid options (start server) calls).passed)
run-passes_once_example =
    run-passes_once platform any_uuid options memory_payment_store-IsStore
      memory_payment_store-IsAuthorizing server calls

waiting-IsLedger : IsLedger waiting.budget
waiting-IsLedger =
    run-budget-IsLedger platform any_uuid options view agent server
      ((20, "r1", verifies payload asked valid) ∷ []) refl funded-IsLedger

waiting-held :
    (q : Reservation) × (lookup payload.ref waiting.budget_reservations ≡ some held)
    × (find (λ z. z.reservation_id == held.reservation_id) waiting.budget.reservations ≡ some q)
    × (is_reserved q.status ≡ true)
unfolding server_code
waiting-held = (_, refl, refl, refl)

failure-IsGivenBack_example :
    IsGivenBack held payload waiting (settle_failure platform any_uuid options 30 payload waiting)
    × IsGivenBack held payload waiting
        (verified_payment_canceled platform any_uuid options 30 payload waiting)
failure-IsGivenBack_example =
    failure-IsGivenBack platform any_uuid options view agent 30 payload waiting held waiting-held.0
      refl waiting-IsLedger waiting-held.1 waiting-held.2 waiting-held.3
