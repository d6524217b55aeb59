-- ===== src/Resource.antt =====
-- `createMeterKitResourceServer` of packages/sdk/src/index.ts: the facilitator that it gives to the x402
-- library, and its hooks. The library is not modelled: it calls the hooks in any order. An object that
-- keys a `WeakMap` is the text `ref`. Events (`emitSafely`) cannot change the state and are left out.
pub mod Verify
pub mod Finish
pub mod Frames
pub mod Settling
pub mod Authorizing
pub mod Keeping
pub mod Spending
pub mod Tests
use meterkit.Prelude.{
  ℕ, String, Bool, true, false, not, ◌&&◌, ◌==◌, Option, none, some, List, [], ◌∷◌, lookup, set,
  delete, mem, if◌then◌else◌, Result, ok, err, ◌>>=◌, ◌>>◌, reject_if, or_throw, ℤ, pos,
}
use Prim.Native.String
use meterkit.Platform.{Runtime, solana_devnet, truthy}
use meterkit.Products.{Product}
use meterkit.Payments.{Payment, PaymentError, confirmed, parse_payment}
use meterkit.Payments.Interface.{PaymentStore}
use meterkit.Policies.{
  ConfiguredPolicy, PolicyDecision, PolicyError, EvaluationInput, run_payment_policies,
}
use meterkit.Settlement.{Transfer, SettlementError}
use meterkit.Middleware.{Settlement}
use meterkit.Receipts.{Receipt, accepted, confirmed, is_receipt}
use meterkit.Authorization.Budget.{
  Guard, BudgetReservation, BudgetError, fingerprint, reserve, consume, release,
}
use meterkit.Authorization.Checks.{BudgetRequest}

-- `paymentPayload`: the object, the text of `JSON.stringify` and that of `stableJson`.
pub record Payload : Type 0 where
  pub ref : String
  pub json : String
  pub stable_json : String

pub record Requirements : Type 0 where
  pub amount : ℕ
  pub asset : String
  pub pay_to : String

-- `options`; the guard of the budget is that of a time.
pub record Options (S B E : Type 0) : Type 0 where
  pub product : Product
  pub store : PaymentStore S
  pub settlement_validator : Option (Transfer → Result SettlementError (Unit {0}))
  pub policies : List ConfiguredPolicy
  pub on_receipt : Receipt → Bool
  pub agent_budget : Option (ℕ → Guard B E)

-- The stores behind the server, and what its closure keeps.
pub record Server (S B : Type 0) : Type 0 where
  pub store : S
  pub budget : B
  pub settled_records : List (String × Payment)
  pub policy_results : List (String × List PolicyDecision)
  pub budget_reservations : List (String × BudgetReservation)
  pub local_authorizations : List String

pub data SettleError : Type 0 where
  facilitator_failed : SettleError
  unvalidated : SettlementError → SettleError
  unsaved : PaymentError → SettleError

pub data AbortReason : Type 0 where
  policy_denied agent_budget_denied payment_replayed : AbortReason

-- How a hook ends.
pub data Verdict : Type 0 where
  done throws : Verdict
  aborts : AbortReason → Verdict

abbrev pub both : Option String → Option String → Option (String × String)
both none b = none
both (some a) none = none
both (some a) (some b) = some (a, b)

-- The transaction and the payer, if the settlement has succeeded and has both.
abbrev pub parties : Settlement → Option (String × String)
parties result =
    if result.success then both (truthy result.transaction) (truthy result.payer) else none

abbrev pub validated :
    Option (Transfer → Result SettlementError (Unit {0})) → Transfer → Result SettleError (Unit {0})
validated none i = ok tt
validated (some validate) i = elim (validate i) [ ok u ↦ ok u | err e ↦ err (unvalidated e) ]

abbrev pub or_unsaved : {A : Type 0} → Result PaymentError A → Result SettleError A
or_unsaved (ok a) = ok a
or_unsaved (err e) = err (unsaved e)

abbrev pub to_transfer : Requirements → String × String → Transfer
to_transfer r (transaction, payer) = record {
  signature = transaction;
  payer = payer;
  pay_to = r.pay_to;
  mint = r.asset;
  amount_atomic = r.amount;
}

abbrev pub to_record : Product → ℕ → String → Requirements → String × String → Payment
to_record product now uuid r (transaction, payer) = record {
  id = uuid;
  product_id = product.id;
  payer = payer;
  pay_to = r.pay_to;
  mint = r.asset;
  amount_atomic = r.amount;
  network = solana_devnet;
  signature = transaction;
  settled_at = now;
  status = confirmed;
}

module _ {S B E : Type 0} (rt : Runtime) (o : Options S B E) where
  -- `settle` of `durableFacilitator`, after the facilitator has answered.
  abbrev pub settled :
      ℕ
      → String
      → Payload
      → Requirements
      → Settlement
      → Server S B
      → Option (String × String)
      → Result SettleError (Server S B × Settlement)
  settled now uuid payload r result v none = ok (v, result)
  settled now uuid payload r result v (some p) = do
    validated o.settlement_validator (to_transfer r p)
    value ← or_unsaved (parse_payment (to_record o.product now uuid r p))
    s ← or_unsaved (o.store.save value v.store)
    ok (record v { store = s; settled_records = set payload.ref value v.settled_records }, result)

  -- `settle`; none where the facilitator throws.
  unfoldable pub settle :
      ℕ
      → String
      → Payload
      → Requirements
      → Option Settlement
      → Server S B
      → Result SettleError (Server S B × Settlement)
  unfolding parse_payment
  settle now uuid payload r answer v = do
    result ← or_throw answer facilitator_failed
    settled now uuid payload r result v (parties result)
