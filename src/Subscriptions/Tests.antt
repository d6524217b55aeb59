-- ===== src/Subscriptions/Tests.antt =====
-- Allowances at concrete inputs.
use meterkit.Prelude.{String, ◌≡◌, refl, ◌↔◌, pos, none, some, List, [], ◌∷◌, ok, err, arith}
use meterkit.Authorization.Tests.{platform, agent, wallet, usdc}
use meterkit.Gateway.Allowances.{AllowanceRequest, within_limits}
use meterkit.Gateway.Tests.{sold, seen, at_fifty}
use meterkit.Subscriptions.{
  assert_allowance_policy, allowance_period_invalid, allowance_start_after_expiry, date_invalid,
  allowance_expired,
}
use meterkit.Subscriptions.Instructions.{Client, FixedInput, RecurringInput, Lifetime}
use meterkit.Subscriptions.Building.{
  build_fixed_allowance, build_recurring_allowance, prepare_fixed_allowance_transaction,
  compile_wallet_instruction, build_monthly_plan, build_transfer_fixed_allowance,
}
use meterkit.Subscriptions.Guarding.{IsAgreed, build_recurring_iff, prepare-within_limits}

-- A client whose instructions are the addresses of their accounts.
abbrev client : Client (List String)
client = record {
  create_fixed_delegation = λ d. ok (d.delegator ∷ d.token_mint ∷ "delegation" ∷ []);
  create_recurring_delegation = λ d. ok (d.delegator ∷ d.token_mint ∷ "recurring" ∷ []);
  transfer_fixed = λ t. ok (t.owner ∷ []);
  transfer_subscription = λ t. ok (t.subscriber ∷ []);
  create_plan = λ p. ok (p.owner ∷ []);
  address = λ s. ok s;
  blockhash = λ s. ok s;
  accounts = λ i. i;
  encode = λ payer i hash height. ok payer;
}

abbrev asked : FixedInput
asked = record {
  owner = wallet;
  payer = none;
  mint = usdc;
  delegate = agent;
  max_atomic = pos 100;
  expires_at = some 90_000;
  nonce = pos 1;
  authority_init_id = pos 1;
}

abbrev repeated : RecurringInput
repeated = record {
  owner = wallet;
  payer = none;
  mint = usdc;
  delegate = agent;
  max_per_period_atomic = pos 100;
  period_seconds = pos 60;
  starts_at = some 20_000;
  expires_at = some 90_000;
  nonce = pos 1;
  authority_init_id = pos 1;
}

abbrev lifetime : Lifetime
lifetime = record { recent_blockhash = "hash"; last_valid_block_height = pos 5 }

abbrev reported : AllowanceRequest
reported = record {
  address = "delegation";
  delegate_wallet = agent;
  mint = usdc;
  max_atomic = 100;
  expires_at = 90_000;
  signature = "signature";
}

code : Unit {0}
unfolding assert_allowance_policy build_fixed_allowance build_recurring_allowance
    prepare_fixed_allowance_transaction compile_wallet_instruction build_monthly_plan
    build_transfer_fixed_allowance
code = tt

prepared_test :
    prepare_fixed_allowance_transaction client 10_000 asked lifetime
    ≡ ok (record { transaction = wallet; delegation_account = "delegation" })
unfolding code
prepared_test = refl

expired_test : build_fixed_allowance client 90_000 asked ≡ err allowance_expired
unfolding code
expired_test = refl

-- A start that is no date is found when it is converted.
undated_test :
    build_recurring_allowance client 10_000 (record repeated { starts_at = none })
    ≡ err date_invalid
unfolding code
undated_test = refl

short_period_test :
    build_recurring_allowance client 10_000 (record repeated { period_seconds = pos 59 })
    ≡ err allowance_period_invalid
unfolding code
short_period_test = refl

late_start_test :
    build_recurring_allowance client 10_000 (record repeated { starts_at = some 90_000 })
    ≡ err allowance_start_after_expiry
unfolding code
late_start_test = refl

build_recurring_iff_example :
    (build_recurring_allowance client 10_000 repeated ≡ ok (wallet ∷ usdc ∷ "recurring" ∷ []))
    ↔ IsAgreed client 10_000 (wallet ∷ usdc ∷ "recurring" ∷ []) repeated
build_recurring_iff_example =
    build_recurring_iff client 10_000 (wallet ∷ usdc ∷ "recurring" ∷ []) repeated

prepare-within_limits_example :
    within_limits platform sold at_fifty seen 20_000 reported ≡ some reported
prepare-within_limits_example =
    prepare-within_limits client platform sold at_fifty seen 10_000 20_000 asked lifetime
      (record { transaction = wallet; delegation_account = "delegation" }) reported prepared_test
      refl refl refl (omega arith) (omega arith)
