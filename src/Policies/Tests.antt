-- ===== src/Policies/Tests.antt =====
-- Runs of payment policies at concrete inputs.
use meterkit.Prelude.{String, ◌≡◌, refl, true, false, none, some, List, [], ◌∷◌, All, ok, length}
use meterkit.Platform.{Runtime, codes, solana_devnet, is_solana_address}
use meterkit.Policies.{
  observe, allow, deny, error, EvaluationInput, ConfigurationInput, ConfiguredPolicy,
  PolicyDecision, answered, timed_out, is_policy_id, is_safe_code, is_forbidden,
  parse_configuration, run_payment_policies,
}
use meterkit.Policies.Running.{IsCleared, run_payment_policies-IsCleared}

-- A platform for the tests.
abbrev pub platform : Runtime
platform = record {
  parse_url = λ s. none;
  print_url = λ u. u.pathname;
  set_pathname = λ u p. u;
  is_url = λ s. true;
  units = λ s. length (codes s);
  sha256_hex = λ s. s;
}

abbrev pub address : String
address = "UsdcUsdcUsdcUsdcUsdcUsdcUsdcUsdcUsdc"

abbrev input : EvaluationInput
input = record {
  network = solana_devnet;
  asset_mint = address;
  amount_atomic = 5;
  recipient = address;
  payer = none;
  resource = "https://api/a";
  transaction = none;
}

abbrev configured : String → ConfigurationInput
configured id = record {
  id = id;
  mode = none;
  on_error = none;
  timeout_ms = none;
  max_response_bytes = none;
  max_age_seconds = none;
}

abbrev decision : String → PolicyDecision
decision id = record {
  policy_id = id;
  provider = id;
  outcome = allow;
  reason_codes = "OK" ∷ [];
  evaluated_at = 1;
  fresh_until = none;
  on_error_applied = none;
  metadata_keys = some ("score" ∷ []);
}

-- It answers that it allows the payment.
abbrev willing : ConfiguredPolicy
willing = record {
  evaluator = record { id = "risk"; evaluate = λ i. answered (decision "risk") };
  configuration = configured "risk";
}

abbrev slow : ConfigurationInput → ConfiguredPolicy
slow c = record { evaluator = record { id = "slow"; evaluate = λ i. timed_out }; configuration = c }

abbrev watched : List ConfiguredPolicy
watched = willing ∷ slow (record (configured "slow") { mode = some observe }) ∷ []

policy_code : Unit {0}
unfolding run_payment_policies is_policy_id is_safe_code is_forbidden parse_configuration
    is_solana_address
policy_code = tt

abbrev failure : PolicyDecision
failure = record {
  policy_id = "slow";
  provider = "slow";
  outcome = error;
  reason_codes = "POLICY_TIMEOUT" ∷ [];
  evaluated_at = 9;
  fresh_until = none;
  on_error_applied = some deny;
  metadata_keys = none;
}

-- An enforced policy that times out denies the payment, and an observed one does not.
denies_test :
    run_payment_policies platform 9 input (willing ∷ slow (configured "slow") ∷ [])
    ≡ ok (false, decision "risk" ∷ failure ∷ [])
unfolding policy_code
denies_test = refl

passes : run_payment_policies platform 9 input watched ≡ ok (true, decision "risk" ∷ failure ∷ [])
unfolding policy_code
passes = refl

run_payment_policies-IsCleared_example : All (IsCleared input) watched
run_payment_policies-IsCleared_example =
    run_payment_policies-IsCleared platform 9 input watched passes
