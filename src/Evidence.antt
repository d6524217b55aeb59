-- ===== src/Evidence.antt =====
-- Evidence of self-service activations: packages/pilot/src/self-service-evidence.ts and
-- packages/pilot/src/self-service-ledger.ts. The ledger file is the list of its records; reading and
-- printing its lines are left out. The test of a UUID is a parameter.
pub mod Appending
pub mod Aggregating
mod Tests
use meterkit.Prelude.{
  ℕ, zero, suc, ◌+◌, String, Bool, true, false, not, ◌&&◌, ◌||◌, Option, none, some, List, [], ◌∷◌,
  ◌++◌, map, ◌==◌, ltb, leb, nat_eq, length, all, any, find, filter, sort_by, if◌then◌else◌, Result,
  ok, err, ◌>>=◌, ◌>>◌, reject_if, ◌/◌,
}
use meterkit.Platform.{is_digest, Runtime, codes, in_range, all_some}

pub data Milestone : Type 0 where
  initializer_started first_402 settlement_finalized protected_response replay_rejected
        day_7_retained :
      Milestone

pub data EvidenceOutcome : Type 0 where
  passed failed unknown abandoned : EvidenceOutcome

pub data ConsentStatus : Type 0 where
  granted denied withdrawn : ConsentStatus

pub record Consents : Type 0 where
  pub technical_participation : ConsentStatus
  pub private_evidence_retention : ConsentStatus
  pub day_seven_followup : ConsentStatus
  pub aggregate_reporting : ConsentStatus
  pub public_attribution : ConsentStatus

-- `ExternalActivationEvidence`; the class of a participant, the surface and the package manager are
-- kept as their texts, and the literal `schemaVersion` is left out.
pub record Evidence : Type 0 where
  pub evidence_id : String
  pub engagement_id : String
  pub classification : String
  pub recorded_at : ℕ
  pub package_version : String
  pub surface : String
  pub package_manager : String
  pub milestone : Milestone
  pub outcome : EvidenceOutcome
  pub intervention_count : ℕ
  pub duration_ms : Option ℕ
  pub endpoint_hash : Option String
  pub evidence_reference : Option String
  pub consents : Consents

pub data EvidenceError : Type 0 where
  invalid evidence_id_already_recorded participant_classification_immutable : EvidenceError

abbrev is_one_of : List String → String → Bool
is_one_of names s = any (λ n. n == s) names

-- /^sha256:[0-9a-f]{64}$/
unfoldable pub is_endpoint_hash : String → Bool
unfolding is_digest
is_endpoint_hash s = is_digest 64 s

module _ (rt : Runtime) (is_uuid : String → Bool) where
  -- What `externalActivationEvidenceSchema` accepts.
  unfoldable pub is_evidence : Evidence → Bool
  unfolding is_endpoint_hash
  is_evidence e =
      is_uuid e.evidence_id
      && is_uuid e.engagement_id
      && is_one_of
          ("internal_maintainer" ∷ "synthetic" ∷ "external_independent" ∷ "external_compensated"
            ∷ "external_other" ∷ [])
          e.classification
      && (leb 1 (rt.units e.package_version) && leb (rt.units e.package_version) 64)
      && is_one_of ("express" ∷ "next-route" ∷ "hono" ∷ "mcp" ∷ []) e.surface
      && is_one_of ("npm" ∷ "pnpm" ∷ []) e.package_manager
      && leb e.intervention_count 100
      && all_some (λ d. leb d 86_400_000) e.duration_ms
      && all_some is_endpoint_hash e.endpoint_hash
      && all_some (λ r. leb 1 (rt.units r) && leb (rt.units r) 512) e.evidence_reference

-- `assertClassificationImmutable`.
unfoldable pub assert_classification_immutable :
    Option Evidence → Evidence → Result EvidenceError (Unit {0})
assert_classification_immutable none next = ok tt
assert_classification_immutable (some prior) next =
    reject_if
      (prior.engagement_id == next.engagement_id
        && not (prior.classification == next.classification))
      participant_classification_immutable

module _ (rt : Runtime) (is_uuid : String → Bool) where
  -- `appendSelfServiceEvidence`.
  unfoldable pub append_self_service_evidence :
      Evidence → List Evidence → Result EvidenceError (List Evidence)
  unfolding is_evidence assert_classification_immutable
  append_self_service_evidence record_ existing = do
    reject_if (not (is_evidence rt is_uuid record_)) invalid
    reject_if (any (λ e. e.evidence_id == record_.evidence_id) existing)
        evidence_id_already_recorded
    assert_classification_immutable (find (λ e. e.engagement_id == record_.engagement_id) existing)
        record_
    ok (existing ++ (record_ ∷ []))

abbrev pub is_granted : ConsentStatus → Bool
is_granted granted = true
is_granted _ = false

-- The three consents that both summaries ask for.
abbrev pub is_consented : Evidence → Bool
is_consented e =
    is_granted e.consents.technical_participation
    && is_granted e.consents.private_evidence_retention
    && is_granted e.consents.aggregate_reporting

abbrev pub is_external : Evidence → Bool
is_external e = e.classification == "external_independent"

abbrev same_milestone : Milestone → Milestone → Bool
same_milestone initializer_started initializer_started = true
same_milestone first_402 first_402 = true
same_milestone settlement_finalized settlement_finalized = true
same_milestone protected_response protected_response = true
same_milestone replay_rejected replay_rejected = true
same_milestone day_7_retained day_7_retained = true
same_milestone _ _ = false

abbrev is_passed : EvidenceOutcome → Bool
is_passed passed = true
is_passed _ = false

abbrev has_passed : Milestone → Evidence → Bool
has_passed m e = same_milestone e.milestone m && is_passed e.outcome

-- One turn of the loop that fills the map of engagements.
unfoldable pub add_to_group :
    Evidence → List (String × List Evidence) → List (String × List Evidence)
add_to_group e [] = (e.engagement_id, e ∷ []) ∷ []
add_to_group e ((id, items) ∷ groups) =
    let rest = add_to_group e groups in
    if id == e.engagement_id then (id, items ++ (e ∷ [])) ∷ groups else (id, items) ∷ rest

unfoldable pub group : List Evidence → List (String × List Evidence) → List (String × List Evidence)
unfolding add_to_group
group [] groups = groups
group (e ∷ es) groups = group es (add_to_group e groups)

abbrev durations : List Evidence → List ℕ
durations [] = []
durations (e ∷ es) =
    let rest = durations es in
    if has_passed first_402 e then duration_of e.duration_ms rest else rest
  where
    duration_of : Option ℕ → List ℕ → List ℕ
    duration_of none ds = ds
    duration_of (some d) ds = d ∷ ds

abbrev flat_durations : List (List Evidence) → List ℕ
flat_durations [] = []
flat_durations (g ∷ gs) = durations g ++ flat_durations gs

abbrev nth : ℕ → List ℕ → Option ℕ
nth n [] = none
nth zero (x ∷ xs) = some x
nth (suc n) (x ∷ xs) = nth n xs

pub record CommercialGate : Type 0 where
  pub starts : ℕ
  pub completed_without_critical_intervention : ℕ
  pub median_first_402_ms : Option ℕ
  pub external_settlement_and_replay : Bool
  pub eligible : Bool

abbrev is_below : ℕ → Option ℕ → Bool
is_below n none = false
is_below n (some m) = ltb m n

unfoldable pub is_start : List Evidence → Bool
is_start items = any (has_passed initializer_started) items

unfoldable pub is_completed : List Evidence → Bool
is_completed items =
    all (λ m. any (λ e. has_passed m e && nat_eq e.intervention_count 0) items)
      (settlement_finalized ∷ protected_response ∷ replay_rejected ∷ [])

-- What `qualifiesForCommercialGate` makes of the records that it keeps.
unfoldable pub gate_of : List Evidence → CommercialGate
unfolding group is_start is_completed
gate_of external =
    let starts = filter is_start (map (λ g. g.1) (group external [])) in
    let completed = filter is_completed starts in
    let first = sort_by (λ d. d) (flat_durations starts) in
    let median = nth (length first / 2) first in
    record {
      starts = length starts;
      completed_without_critical_intervention = length completed;
      median_first_402_ms = median;
      external_settlement_and_replay = ltb 0 (length completed);
      eligible =
          leb 3 (length starts)
          && leb 2 (length completed)
          && is_below 600_000 median
          && ltb 0 (length completed);
    }

unfoldable pub qualifies_for_commercial_gate : List Evidence → CommercialGate
unfolding gate_of
qualifies_for_commercial_gate records =
    gate_of (filter (λ e. is_external e && is_consented e) records)

-- The size of a `Set` of engagements.
unfoldable pub unique : List String → List String
unique [] = []
unique (x ∷ xs) = x ∷ filter (λ y. not (y == x)) (unique xs)

unfoldable pub engagements : List Evidence → ℕ
unfolding unique
engagements es = length (unique (map (λ e. e.engagement_id) es))

unfoldable pub count : List Evidence → Milestone → ℕ
unfolding engagements
count values m = engagements (filter (has_passed m) values)

pub record Summary : Type 0 where
  pub external_engagements : ℕ
  pub external_first_402 : ℕ
  pub external_settlements : ℕ
  pub external_replay_rejected : ℕ
  pub external_day_seven_eligible : ℕ
  pub synthetic_engagements : ℕ
  pub synthetic_first_402 : ℕ
  pub commercial_gate : CommercialGate

-- `aggregateSelfServiceLedger`.
unfoldable pub aggregate_self_service_ledger : List Evidence → Summary
unfolding count qualifies_for_commercial_gate
aggregate_self_service_ledger records =
    let consented = filter is_consented records in
    let external = filter is_external consented in
    let synthetic = filter (λ e. not (is_external e)) consented in
    record {
      external_engagements = engagements external;
      external_first_402 = count external first_402;
      external_settlements = count external settlement_finalized;
      external_replay_rejected = count external replay_rejected;
      external_day_seven_eligible =
          engagements (filter (λ e. is_granted e.consents.day_seven_followup) external);
      synthetic_engagements = engagements synthetic;
      synthetic_first_402 = count synthetic first_402;
      commercial_gate = qualifies_for_commercial_gate external;
    }
