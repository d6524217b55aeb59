-- ===== src/Resource/Verify.antt =====
-- `onAfterVerify` of `createMeterKitResourceServer` in packages/sdk/src/index.ts.
use meterkit.Prelude.{
  ℕ, String, Bool, true, false, Option, none, some, List, [], ◌∷◌, set, mem, if◌then◌else◌, Result,
  ok, err, pos,
}
use meterkit.Platform.{Runtime, solana_devnet, truthy}
use meterkit.Products.{Product}
use meterkit.Policies.{
  ConfiguredPolicy, PolicyDecision, PolicyError, EvaluationInput, run_payment_policies,
}
use meterkit.Authorization.Budget.{Guard, BudgetReservation, BudgetError, reserve}
use meterkit.Authorization.Checks.{BudgetRequest}
use meterkit.Resource.{
  Payload, Requirements, Options, Server, policy_denied, agent_budget_denied, payment_replayed,
  Verdict, done, throws, aborts,
}

-- What `onAfterVerify` is given of the verification.
pub record Verification : Type 0 where
  pub is_valid : Bool
  pub payer : Option String

abbrev pub valid_payer : Verification → Option String
valid_payer c = if c.is_valid then truthy c.payer else none

abbrev pub to_input : Product → Requirements → String → EvaluationInput
to_input product r payer = record {
  network = solana_devnet;
  asset_mint = r.asset;
  amount_atomic = r.amount;
  recipient = r.pay_to;
  payer = some payer;
  resource = product.resource;
  transaction = none;
}

abbrev pub to_budget_request : Product → Payload → Requirements → String → BudgetRequest
to_budget_request product payload r payer = record {
  payer = payer;
  network = solana_devnet;
  asset_mint = r.asset;
  recipient = r.pay_to;
  resource = product.resource;
  amount_atomic = pos r.amount;
  payment_json = payload.stable_json;
}

abbrev pub unless_replayed : {S B : Type 0} → Bool → Server S B → Server S B × Verdict
unless_replayed true v = (v, done)
unless_replayed false v = (v, aborts payment_replayed)

module _ {S B E : Type 0} (rt : Runtime) (o : Options S B E) where
  abbrev pub reserve_in_store :
      String → Server S B → Option (String → S → S × Bool) → Server S B × Verdict
  reserve_in_store print v none =
      if mem print v.local_authorizations
      then unless_replayed false v
      else unless_replayed true (record v { local_authorizations = print ∷ v.local_authorizations })
  reserve_in_store print v (some reserve_authorization) =
      unless_replayed (reserve_authorization print v.store).1
        (record v { store = (reserve_authorization print v.store).0 })

  -- The last part of `onAfterVerify`: the authorization itself.
  unfoldable pub reserve_authorization : Payload → Server S B → Server S B × Verdict
  reserve_authorization payload v =
      reserve_in_store (rt.sha256_hex payload.json) v o.store.reserve_authorization

  abbrev pub after_reserve :
      Payload → Server S B → Result (BudgetError E) (B × BudgetReservation) → Server S B × Verdict
  after_reserve payload v (err e) = (v, aborts agent_budget_denied)
  after_reserve payload v (ok (b, held)) =
      reserve_authorization payload
        (record v { budget = b; budget_reservations = set payload.ref held v.budget_reservations })

  -- The part before it: the agent budget.
  abbrev pub reserve_budget :
      ℕ
      → String
      → Payload
      → Requirements
      → String
      → Server S B
      → Option (ℕ → Guard B E)
      → Server S B × Verdict
  reserve_budget now uuid payload r payer v none = reserve_authorization payload v
  reserve_budget now uuid payload r payer v (some guard) =
      after_reserve payload v
        (reserve rt (guard now) now uuid (to_budget_request o.product payload r payer) v.budget)

  abbrev pub after_policies :
      ℕ
      → String
      → Payload
      → Requirements
      → String
      → Server S B
      → Result PolicyError (Bool × List PolicyDecision)
      → Server S B × Verdict
  after_policies now uuid payload r payer v (err e) = (v, throws)
  after_policies now uuid payload r payer v (ok (false, decisions)) = (
    record v { policy_results = set payload.ref decisions v.policy_results },
    aborts policy_denied,
  )
  after_policies now uuid payload r payer v (ok (true, decisions)) =
      reserve_budget now uuid payload r payer
        (record v { policy_results = set payload.ref decisions v.policy_results }) o.agent_budget

  abbrev pub check_policies :
      ℕ
      → String
      → Payload
      → Requirements
      → String
      → Server S B
      → List ConfiguredPolicy
      → Server S B × Verdict
  check_policies now uuid payload r payer v [] =
      reserve_budget now uuid payload r payer v o.agent_budget
  check_policies now uuid payload r payer v (p ∷ ps) =
      after_policies now uuid payload r payer v
        (run_payment_policies rt now (to_input o.product r payer) (p ∷ ps))

  abbrev pub verified :
      ℕ → String → Payload → Requirements → Server S B → Option String → Server S B × Verdict
  verified now uuid payload r v none = (v, done)
  verified now uuid payload r v (some payer) = check_policies now uuid payload r payer v o.policies

  -- `onAfterVerify`.
  unfoldable pub after_verify :
      ℕ → String → Payload → Requirements → Verification → Server S B → Server S B × Verdict
  after_verify now uuid payload r c v = verified now uuid payload r v (valid_payer c)
