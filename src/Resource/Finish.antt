-- ===== src/Resource/Finish.antt =====
-- The hooks of `createMeterKitResourceServer` in packages/sdk/src/index.ts that run after a settlement,
-- and the server under any calls of its hooks.
use meterkit.Prelude.{
  and_then, ℕ, String, Bool, true, false, ◌&&◌, Option, none, some, List, [], ◌∷◌, lookup, delete,
  if◌then◌else◌, Result, ok, err,
}
use Prim.Native.String
use meterkit.Platform.{Runtime, solana_devnet}
use meterkit.Products.{Product}
use meterkit.Payments.{Payment, confirmed}
use meterkit.Policies.{PolicyDecision}
use meterkit.Middleware.{Settlement}
use meterkit.Receipts.{Receipt, accepted, confirmed, is_receipt}
use meterkit.Authorization.Budget.{Guard, BudgetReservation, fingerprint, consume, release}
use meterkit.Resource.{
  Payload, Requirements, Options, Server, SettleError, Verdict, done, throws, parties,
}
use meterkit.Resource.{settle}
use meterkit.Resource.Verify.{valid_payer, Verification, after_verify}

-- The receipt of a settled payment.
abbrev pub to_receipt :
    Runtime
    → Product
    → String
    → Requirements
    → String × String
    → Payment
    → Option BudgetReservation
    → List PolicyDecision
    → Receipt
to_receipt rt product uuid r (transaction, payer) value budget decisions = record {
  receipt_id = uuid;
  product_id = product.id;
  network = solana_devnet;
  asset_mint = r.asset;
  amount_atomic = r.amount;
  recipient = r.pay_to;
  payer = some payer;
  resource = product.resource;
  decision = accepted;
  settlement = confirmed;
  signature_fingerprint = some (fingerprint rt transaction);
  authorization_fingerprint = and_then budget (λ b. some b.authorization_fingerprint);
  payment_fingerprint = and_then budget (λ b. some b.payment_fingerprint);
  explorer_url =
      some
        (String.◌++◌ "https://explorer.solana.com/tx/" (String.◌++◌ transaction "?cluster=devnet"));
  policy_decisions = decisions;
  created_at = value.settled_at;
  updated_at = value.settled_at;
  reason_code = "SETTLEMENT_CONFIRMED";
}

abbrev pub or_none {ℓ} : {A : Type ℓ} → Option (List A) → List A
or_none none = []
or_none (some xs) = xs

-- `policyResults.delete` and `budgetReservations.delete`.
abbrev pub forget : {S B : Type 0} → Payload → Server S B → Server S B
forget payload v = record v {
  policy_results = delete payload.ref v.policy_results;
  budget_reservations = delete payload.ref v.budget_reservations;
}

abbrev pub unreserve : {S B : Type 0} → Payload → Server S B → Server S B
unreserve payload v = record v { budget_reservations = delete payload.ref v.budget_reservations }

module _ {S B E : Type 0} (rt : Runtime) (is_uuid : String → Bool) (o : Options S B E) where
  -- From `publicPaymentReceiptSchema.parse` on.
  unfoldable pub publish : Payload → Receipt → Server S B → Server S B × Verdict
  publish payload receipt v =
      if is_receipt rt is_uuid receipt && o.on_receipt receipt
      then (forget payload v, done)
      else (v, throws)

  abbrev pub after_consume :
      Payload → Receipt → Server S B → Result E (B × Bool) → Server S B × Verdict
  after_consume payload receipt v (err e) = (v, throws)
  after_consume payload receipt v (ok (b, false)) = (record v { budget = b }, throws)
  after_consume payload receipt v (ok (b, true)) = publish payload receipt (record v { budget = b })

  -- A reservation that is held is consumed first. Without a guard there is none.
  abbrev pub consume_budget :
      ℕ
      → Payload
      → Receipt
      → Server S B
      → Option BudgetReservation
      → Option (ℕ → Guard B E)
      → Server S B × Verdict
  consume_budget now payload receipt v none guard = publish payload receipt v
  consume_budget now payload receipt v (some held) none = (v, throws)
  consume_budget now payload receipt v (some held) (some guard) =
      after_consume payload receipt v (consume rt (guard now) held.reservation_id v.budget)

  abbrev pub recorded :
      ℕ
      → String
      → Payload
      → Requirements
      → Server S B
      → Option (String × String)
      → Option Payment
      → Server S B × Verdict
  recorded now uuid payload r v none value = (v, done)
  recorded now uuid payload r v (some p) none = (v, done)
  recorded now uuid payload r v (some p) (some value) =
      let held = lookup payload.ref v.budget_reservations in
      let decisions = or_none (lookup payload.ref v.policy_results) in
      consume_budget now payload (to_receipt rt o.product uuid r p value held decisions) v held
        o.agent_budget

  -- `onAfterSettle`.
  unfoldable pub after_settle :
      ℕ → String → Payload → Requirements → Settlement → Server S B → Server S B × Verdict
  unfolding publish
  after_settle now uuid payload r result v =
      recorded now uuid payload r v (parties result) (lookup payload.ref v.settled_records)

  abbrev pub after_release : Payload → Server S B → Result E (B × Bool) → Server S B × Verdict
  after_release payload v (err e) = (v, throws)
  after_release payload v (ok (b, released)) = (unreserve payload (record v { budget = b }), done)

  abbrev pub release_budget :
      ℕ
      → Payload
      → Server S B
      → Option BudgetReservation
      → Option (ℕ → Guard B E)
      → Server S B × Verdict
  release_budget now payload v none guard = (unreserve payload v, done)
  release_budget now payload v (some held) none = (unreserve payload v, done)
  release_budget now payload v (some held) (some guard) =
      after_release payload v (release rt (guard now) held.reservation_id v.budget)

  -- `onSettleFailure`.
  unfoldable pub settle_failure : ℕ → Payload → Server S B → Server S B × Verdict
  settle_failure now payload v =
      release_budget now payload v (lookup payload.ref v.budget_reservations) o.agent_budget

  -- `onVerifiedPaymentCanceled`.
  unfoldable pub verified_payment_canceled : ℕ → Payload → Server S B → Server S B × Verdict
  verified_payment_canceled now payload v =
      release_budget now payload v (lookup payload.ref v.budget_reservations) o.agent_budget

-- A call of the server: its time, and the UUID that it makes.
pub data Call : Type 0 where
  verifies : Payload → Requirements → Verification → Call
  settles : Payload → Requirements → Option Settlement → Call
  concludes : Payload → Requirements → Settlement → Call
  fails cancels : Payload → Call

-- The server with all that passed its verification hook, each with the digest of its payload, and all the
-- settlements that it reported.
pub record History (S B : Type 0) : Type 0 where
  pub server : Server S B
  pub passed : List (Verification × String)
  pub settled : List Settlement

abbrev pub log_pass :
    Verification → Verdict → String → List (Verification × String) → List (Verification × String)
log_pass c done print passed = (c, print) ∷ passed
log_pass c _ print passed = passed

abbrev pub log_settlement :
    {S B : Type 0} → History S B → Result SettleError (Server S B × Settlement) → History S B
log_settlement h (ok (v, result)) = record h { server = v; settled = result ∷ h.settled }
log_settlement h (err e) = h

abbrev pub add_print : Option String → String → List String → List String
add_print none print prints = prints
add_print (some payer) print prints = print ∷ prints

-- The digests of what passed as valid and with a payer. The hook lets the others pass without the check for
-- a replay.
abbrev pub payer_prints : List (Verification × String) → List String
payer_prints [] = []
payer_prints ((c, print) ∷ passed) = add_print (valid_payer c) print (payer_prints passed)

abbrev pub add_party : Option (String × String) → List String → List String
add_party none ts = ts
add_party (some p) ts = p.0 ∷ ts

-- The transactions of the settlements that were reported as a success with a transaction and a payer. The
-- others are reported without being validated or saved.
abbrev pub transactions : List Settlement → List String
transactions [] = []
transactions (result ∷ results) = add_party (parties result) (transactions results)

module _ {S B E : Type 0} (rt : Runtime) (is_uuid : String → Bool) (o : Options S B E) where
  unfoldable pub step : History S B → ℕ × String × Call → History S B
  step h (now, uuid, verifies payload r c) =
      let next = after_verify rt o now uuid payload r c h.server in
      record h { server = next.0; passed = log_pass c next.1 (rt.sha256_hex payload.json) h.passed }
  step h (now, uuid, settles payload r answer) =
      log_settlement h (settle rt o now uuid payload r answer h.server)
  step h (now, uuid, concludes payload r result) = record h {
    server = (after_settle rt is_uuid o now uuid payload r result h.server).0;
  }
  step h (now, uuid, fails payload) = record h {
    server = (settle_failure rt is_uuid o now payload h.server).0;
  }
  step h (now, uuid, cancels payload) = record h {
    server = (verified_payment_canceled rt is_uuid o now payload h.server).0;
  }

  unfoldable pub run : History S B → List (ℕ × String × Call) → History S B
  unfolding step
  run h [] = h
  run h (c ∷ cs) = run (step h c) cs

-- A server whose calls are not logged yet.
abbrev pub start : {S B : Type 0} → Server S B → History S B
start v = record { server = v; passed = []; settled = [] }
