-- ===== src/Policies.antt =====
-- Payment policies: packages/core/src/policy.ts, and `runPaymentPolicies` of
-- packages/sdk/src/policy-runner.ts. An evaluator is a parameter of the model: what its promise gives.
-- The number `confidence` and the values of the metadata are left out of a decision.
pub mod Running
pub mod Tests
use meterkit.Prelude.{
  ℕ, zero, suc, String, Bool, true, false, not, ◌&&◌, ◌||◌, Option, none, some, List, [], ◌∷◌, ◌==◌,
  ◌=/=◌, ltb, leb, nat_eq, length, all, if◌then◌else◌, Result, ok, err, ◌>>=◌, ◌>>◌, any, ◌+◌,
}
use meterkit.Platform.{Runtime, codes, in_range, is_solana_address, all_some, solana_devnet}

-- /^[A-Z][A-Z0-9_]{0,63}$/
abbrev is_upper : ℕ → Bool
is_upper c = in_range b'A' b'Z' c

abbrev is_code_rest : ℕ → Bool
is_code_rest c = in_range b'A' b'Z' c || in_range b'0' b'9' c || nat_eq c b'_'

abbrev is_code : List ℕ → Bool
is_code [] = false
is_code (c ∷ cs) = is_upper c && all is_code_rest cs && leb (length cs) 63

unfoldable pub is_safe_code : String → Bool
is_safe_code s = is_code (codes s)

-- /^[a-z0-9](?:[a-z0-9-]{0,62}[a-z0-9])?$/
abbrev pub is_alphanumeric : ℕ → Bool
is_alphanumeric c = in_range b'a' b'z' c || in_range b'0' b'9' c

abbrev pub is_slug_rest : List ℕ → Bool
is_slug_rest [] = true
is_slug_rest (c ∷ []) = is_alphanumeric c
is_slug_rest (c ∷ d ∷ cs) = (is_alphanumeric c || nat_eq c b'-') && is_slug_rest (d ∷ cs)

abbrev is_slug : List ℕ → Bool
is_slug [] = false
is_slug (c ∷ cs) = is_alphanumeric c && is_slug_rest cs && leb (length cs) 63

unfoldable pub is_policy_id : String → Bool
is_policy_id s = is_slug (codes s)

pub data Mode : Type 0 where
  enforce observe : Mode

pub data OnError : Type 0 where
  allow deny : OnError

-- `PaymentPolicyConfiguration`, and its input with fields that may be missing.
pub record Configuration : Type 0 where
  pub id : String
  pub mode : Mode
  pub on_error : OnError
  pub timeout_ms : ℕ
  pub max_response_bytes : ℕ
  pub max_age_seconds : ℕ

pub record ConfigurationInput : Type 0 where
  pub id : String
  pub mode : Option Mode
  pub on_error : Option OnError
  pub timeout_ms : Option ℕ
  pub max_response_bytes : Option ℕ
  pub max_age_seconds : Option ℕ

abbrev default_to {ℓ} : {A : Type ℓ} → A → Option A → A
default_to d none = d
default_to d (some a) = a

pub data PolicyError : Type 0 where
  -- A schema refuses: the input, a configuration, or the decision that stands for a failure.
  input_invalid configuration_invalid decision_invalid : PolicyError

abbrev within : ℕ → ℕ → ℕ → Bool
within lo hi n = leb lo n && leb n hi

-- `paymentPolicyConfigurationSchema.parse`.
unfoldable pub parse_configuration : ConfigurationInput → Result PolicyError Configuration
parse_configuration c =
    let parsed : Configuration = record {
      id = c.id;
      mode = default_to enforce c.mode;
      on_error = default_to deny c.on_error;
      timeout_ms = default_to 2_000 c.timeout_ms;
      max_response_bytes = default_to 32_768 c.max_response_bytes;
      max_age_seconds = default_to 0 c.max_age_seconds;
    } in
    if is_policy_id parsed.id
      && within 100 10_000 parsed.timeout_ms
      && within 1_024 65_536 parsed.max_response_bytes
      && within 0 3_600 parsed.max_age_seconds
    then ok parsed
    else err configuration_invalid

-- `PolicyEvaluationInput`.
pub record EvaluationInput : Type 0 where
  pub network : String
  pub asset_mint : String
  pub amount_atomic : ℕ
  pub recipient : String
  pub payer : Option String
  pub resource : String
  pub transaction : Option String

pub data DecisionOutcome : Type 0 where
  allow warn deny error : DecisionOutcome

-- `PolicyDecision`; of the metadata, the keys.
pub record PolicyDecision : Type 0 where
  pub policy_id : String
  pub provider : String
  pub outcome : DecisionOutcome
  pub reason_codes : List String
  pub evaluated_at : ℕ
  pub fresh_until : Option ℕ
  pub on_error_applied : Option OnError
  pub metadata_keys : Option (List String)

-- Equality of texts up to the case of A-Z.
abbrev lower : ℕ → ℕ
lower c = if in_range b'A' b'Z' c then c + 32 else c

abbrev same_codes : List ℕ → List ℕ → Bool
same_codes [] [] = true
same_codes (c ∷ cs) (d ∷ ds) = nat_eq (lower c) (lower d) && same_codes cs ds
same_codes _ _ = false

-- `forbiddenMetadataKeys`.
unfoldable pub is_forbidden : String → Bool
is_forbidden key =
    any (λ s. same_codes (codes key) (codes s))
      ("authorization" ∷ "cookie" ∷ "password" ∷ "privatekey" ∷ "secret" ∷ "seed" ∷ "signature"
        ∷ "token" ∷ [])

module _ (rt : Runtime) where
  -- `policyEvaluationInputSchema.parse`.
  unfoldable pub parse_input : EvaluationInput → Result PolicyError EvaluationInput
  parse_input i =
      if i.network == solana_devnet
        && is_solana_address i.asset_mint
        && ltb 0 i.amount_atomic
        && is_solana_address i.recipient
        && all_some is_solana_address i.payer
        && rt.is_url i.resource
        && leb (rt.units i.resource) 2_048
        && all_some (λ t. leb (rt.units t) 20_000) i.transaction
      then ok i
      else err input_invalid

  -- What `policyDecisionSchema` accepts.
  unfoldable pub is_decision : PolicyDecision → Bool
  is_decision d =
      within 1 64 (rt.units d.policy_id)
      && within 1 64 (rt.units d.provider)
      && all is_safe_code d.reason_codes
      && leb (length d.reason_codes) 20
      && all_some (all (λ k. leb (rt.units k) 64 && not (is_forbidden k))) d.metadata_keys

-- What the promise of an evaluator gives: a value, the error of the timeout, or another error.
pub data Answer : Type 0 where
  answered : PolicyDecision → Answer
  timed_out broken : Answer

pub record Evaluator : Type 0 where
  pub id : String
  pub evaluate : EvaluationInput → Answer

-- `ConfiguredPaymentPolicy`.
pub record ConfiguredPolicy : Type 0 where
  pub evaluator : Evaluator
  pub configuration : ConfigurationInput

module _ (rt : Runtime) where
  -- The body of `try`: the decision, or the code of the failure.
  unfoldable pub try_evaluate : Configuration → Evaluator → Answer → Result String PolicyDecision
  unfolding is_decision
  try_evaluate c e (answered d) =
      if is_decision rt d && not (d.policy_id =/= c.id || e.id =/= c.id)
      then ok d
      else err "POLICY_UNAVAILABLE"
  try_evaluate c e timed_out = err "POLICY_TIMEOUT"
  try_evaluate c e broken = err "POLICY_UNAVAILABLE"

  -- The body of `catch`.
  unfoldable pub error_decision :
      ℕ → Configuration → Evaluator → String → Result PolicyError PolicyDecision
  error_decision now c e code =
      let d : PolicyDecision = record {
        policy_id = c.id;
        provider = e.id;
        outcome = error;
        reason_codes = code ∷ [];
        evaluated_at = now;
        fresh_until = none;
        on_error_applied = some c.on_error;
        metadata_keys = none;
      } in
      if is_decision rt d then ok d else err decision_invalid

  abbrev pub or_error :
      ℕ
      → Configuration
      → Evaluator
      → Result String PolicyDecision
      → Result PolicyError PolicyDecision
  or_error now c e (ok d) = ok d
  or_error now c e (err code) = error_decision now c e code

-- The tests that set `allowed` to false.
unfoldable pub permits : Configuration → PolicyDecision → Bool
permits c d = judge c.mode c.on_error d.outcome
  where
    judge : Mode → OnError → DecisionOutcome → Bool
    judge observe _ _ = true
    judge enforce _ deny = false
    judge enforce _ warn = false
    judge enforce deny error = false
    judge enforce _ _ = true

module _ (rt : Runtime) (now : ℕ) (input : EvaluationInput) where
  -- One turn of the loop.
  unfoldable pub run_policy : ConfiguredPolicy → Result PolicyError (Bool × PolicyDecision)
  unfolding try_evaluate error_decision permits
  run_policy item = do
    c ← parse_configuration item.configuration
    d ←
        or_error rt now c item.evaluator
          (try_evaluate rt c item.evaluator (item.evaluator.evaluate input))
    ok (permits c d, d)

  -- The loop, with `allowed` as the conjunction over its turns.
  unfoldable pub run_policies :
      List ConfiguredPolicy → Result PolicyError (Bool × List PolicyDecision)
  unfolding run_policy
  run_policies [] = ok (true, [])
  run_policies (item ∷ items) = do
    turn ← run_policy item
    rest ← run_policies items
    ok (turn.0 && rest.0, turn.1 ∷ rest.1)

-- `runPaymentPolicies`.
unfoldable pub run_payment_policies :
    Runtime
    → ℕ
    → EvaluationInput
    → List ConfiguredPolicy
    → Result PolicyError (Bool × List PolicyDecision)
unfolding run_policies parse_input
run_payment_policies rt now raw items = do
  input ← parse_input rt raw
  run_policies rt now input items
