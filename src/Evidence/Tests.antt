-- ===== src/Evidence/Tests.antt =====
-- A ledger of activations at concrete inputs.
use meterkit.Prelude.{String, ◌≡◌, refl, Bool, true, false, none, some, List, [], ◌∷◌, err}
use Prim.Native.String
use meterkit.Policies.Tests.{platform}
use meterkit.Evidence.{
  Evidence, Milestone, initializer_started, settlement_finalized, protected_response,
  replay_rejected, first_402, passed, granted, denied, participant_classification_immutable,
  is_endpoint_hash, append_self_service_evidence, aggregate_self_service_ledger,
  qualifies_for_commercial_gate,
}
use meterkit.Evidence.Appending.{IsLedger, append_all, append_all-IsLedger}

abbrev any_uuid : String → Bool
any_uuid s = true

abbrev step : String → String → Milestone → Evidence
step id engagement milestone = record {
  evidence_id = id;
  engagement_id = engagement;
  classification = "external_independent";
  recorded_at = 1;
  package_version = "1.0.0";
  surface = "hono";
  package_manager = "pnpm";
  milestone = milestone;
  outcome = passed;
  intervention_count = 0;
  duration_ms = some 60_000;
  endpoint_hash = none;
  evidence_reference = none;
  consents = record {
    technical_participation = granted;
    private_evidence_retention = granted;
    day_seven_followup = denied;
    aggregate_reporting = granted;
    public_attribution = denied;
  };
}

abbrev activation : String → List Evidence → List Evidence
activation g rest =
    step (String.◌++◌ g "1") g initializer_started
    ∷ step (String.◌++◌ g "2") g first_402
    ∷ step (String.◌++◌ g "3") g settlement_finalized
    ∷ step (String.◌++◌ g "4") g protected_response
    ∷ step (String.◌++◌ g "5") g replay_rejected
    ∷ rest

abbrev three : List Evidence
three = activation "a" (activation "b" (activation "c" []))

evidence_code : Unit {0}
unfolding append_self_service_evidence is_endpoint_hash append_all aggregate_self_service_ledger
evidence_code = tt

-- Three complete activations pass the gate, and two do not.
gate_test :
    ((qualifies_for_commercial_gate three).eligible ≡ true)
    × ((qualifies_for_commercial_gate (activation "a" (activation "b" []))).eligible ≡ false)
unfolding evidence_code
gate_test = (refl, refl)

-- An engagement does not change its class.
immutable_test :
    append_self_service_evidence platform any_uuid
      (record (step "x" "a" first_402) { classification = "synthetic" })
      (step "a1" "a" initializer_started ∷ [])
    ≡ err participant_classification_immutable
unfolding evidence_code
immutable_test = refl

append_all-IsLedger_example : IsLedger (append_all platform any_uuid [] three)
append_all-IsLedger_example = append_all-IsLedger platform any_uuid three
