-- ===== src/Policies/Running.antt =====
-- What a run of the policies of packages/sdk/src/policy-runner.ts guarantees.
use meterkit.Prelude.{
  ℕ, String, ◌≡◌, refl, ap, ◌⊎◌, inl, inr, Bool, true, ◌&&◌, List, [], ◌∷◌, map, All, eq_iff, ok,
  bind-ok, arith, and-true, Result-cases, subst, ◌∙◌,
}
use meterkit.Platform.{Runtime}
use meterkit.Policies.{
  observe, allow, error, Configuration, ConfigurationInput, ConfiguredPolicy, EvaluationInput,
  PolicyDecision, Answer, answered, timed_out, broken, Evaluator, parse_configuration, try_evaluate,
  or_error, error_decision, permits, run_policy, run_policies, run_payment_policies, parse_input,
}

-- The evaluator itself allowed the payment, under the id of its configuration.
pub record IsAllowing (c : Configuration) (e : Evaluator) (input : EvaluationInput) : Type 0 where
  pub decision : PolicyDecision
  pub answer : e.evaluate input ≡ answered decision
  pub same_id : decision.policy_id ≡ c.id
  pub own_id : e.id ≡ c.id
  pub allowing : decision.outcome ≡ allow

-- What `allowed` asks of one policy.
abbrev pub IsCleared : EvaluationInput → ConfiguredPolicy → Type 0
IsCleared input item =
    (c : Configuration)
    → parse_configuration item.configuration ≡ ok c
    → (c.mode ≡ observe) ⊎ ((c.on_error ≡ allow) ⊎ IsAllowing c item.evaluator input)

parse_configuration-id :
    (i : ConfigurationInput) {c : Configuration} → parse_configuration i ≡ ok c → c.id ≡ i.id
unfolding parse_configuration
parse_configuration-id i h = ground (arith, h)

module _ (rt : Runtime) (now : ℕ) where
  error_decision-eq :
      (c : Configuration) (e : Evaluator) (code : String) {d : PolicyDecision}
      → error_decision rt now c e code ≡ ok d
      → (d.policy_id ≡ c.id) × (d.outcome ≡ error)
  unfolding error_decision
  error_decision-eq c e code h = ground (arith, h)

  try_evaluate-eq :
      (c : Configuration) (e : Evaluator) (a : Answer) {d : PolicyDecision}
      → try_evaluate rt c e a ≡ ok d
      → (a ≡ answered d) × (d.policy_id ≡ c.id) × (e.id ≡ c.id)
  unfolding try_evaluate
  try_evaluate-eq c e (answered d') h =
      ground (arith, h, eq_iff d'.policy_id c.id, eq_iff e.id c.id)
  try_evaluate-eq c e timed_out h = cc
  try_evaluate-eq c e broken h = cc

  -- A decision comes from the evaluator, or is an error.
  or_error-eq :
      (c : Configuration) (e : Evaluator) (a : Answer) {d : PolicyDecision}
      → or_error rt now c e (try_evaluate rt c e a) ≡ ok d
      → (d.policy_id ≡ c.id) × ((d.outcome ≡ error) ⊎ ((a ≡ answered d) × (e.id ≡ c.id)))
  or_error-eq c e a h = elim (Result-cases (try_evaluate rt c e a)) [
    | inl (d', t) ↦
        let (answer, same, own) = try_evaluate-eq c e a t in
        let it = rw t at h in ground (arith, it, answer, same, own)
    | inr (code, t) ↦
        let (same, outcome) = error_decision-eq c e code (rw t at h) in (same, inl outcome)
  ]

  permits-cleared :
      (c : Configuration) (d : PolicyDecision)
      → permits c d ≡ true
      → (c.mode ≡ observe) ⊎ ((c.on_error ≡ allow) ⊎ (d.outcome ≡ allow))
  unfolding permits
  permits-cleared c d h = ground (arith, h)

  run_policy-IsCleared :
      (input : EvaluationInput) (item : ConfiguredPolicy) {d : PolicyDecision}
      → run_policy rt now input item ≡ ok (true, d)
      → IsCleared input item
  unfolding run_policy
  run_policy-IsCleared input item h c p =
      let (c', p', h₁) = bind-ok (parse_configuration item.configuration) h in
      let same : c' ≡ c = cc in
      let (d', q, h₂) =
        bind-ok
          (or_error rt now c' item.evaluator
            (try_evaluate rt c' item.evaluator (item.evaluator.evaluate input)))
          h₁ in
      let permitted : permits c' d' ≡ true = cc in
      let (id, origin) = or_error-eq c' item.evaluator (item.evaluator.evaluate input) q in
      subst (λ k. (k.mode ≡ observe) ⊎ ((k.on_error ≡ allow) ⊎ IsAllowing k item.evaluator input))
        same (cleared c' item.evaluator input d' id origin (permits-cleared c' d' permitted))
    where
      cleared :
          (c : Configuration) (e : Evaluator) (input : EvaluationInput) (d : PolicyDecision)
          → d.policy_id ≡ c.id
          → (d.outcome ≡ error) ⊎ ((e.evaluate input ≡ answered d) × (e.id ≡ c.id))
          → (c.mode ≡ observe) ⊎ ((c.on_error ≡ allow) ⊎ (d.outcome ≡ allow))
          → (c.mode ≡ observe) ⊎ ((c.on_error ≡ allow) ⊎ IsAllowing c e input)
      cleared c e input d id origin (inl m) = inl m
      cleared c e input d id origin (inr (inl m)) = inr (inl m)
      cleared c e input d id (inl wrong) (inr (inr good)) = cc (wrong, good)
      cleared c e input d id (inr (answer, own)) (inr (inr good)) = inr (
          inr
            (record { decision = d; answer = answer; same_id = id; own_id = own; allowing = good }))

  run_policies-All :
      (input : EvaluationInput) (items : List ConfiguredPolicy) {ds : List PolicyDecision}
      → run_policies rt now input items ≡ ok (true, ds)
      → All (IsCleared input) items
  unfolding run_policies
  run_policies-All input [] h = tt
  run_policies-All input (item ∷ items) h =
      let ((b, d), turn, h₁) = bind-ok (run_policy rt now input item) h in
      let ((bs, ds), rest, h₂) = bind-ok (run_policies rt now input items) h₁ in
      let both : (b && bs) ≡ true = cc in
      let (t, u) = and-true both in
      (
        run_policy-IsCleared input item {d = d} (turn ∙ ap (λ z. ok (z, d)) t),
        run_policies-All input items {ds = ds} (rest ∙ ap (λ z. ok (z, ds)) u),
      )

  run_policy-id :
      (input : EvaluationInput) (item : ConfiguredPolicy) {b : Bool} {d : PolicyDecision}
      → run_policy rt now input item ≡ ok (b, d)
      → d.policy_id ≡ item.configuration.id
  unfolding run_policy
  run_policy-id input item h =
      let (c, p, h₁) = bind-ok (parse_configuration item.configuration) h in
      let (d', q, h₂) =
        bind-ok
          (or_error rt now c item.evaluator
            (try_evaluate rt c item.evaluator (item.evaluator.evaluate input)))
          h₁ in
      let id = (or_error-eq c item.evaluator (item.evaluator.evaluate input) q).0 in
      cc (h₂, id, parse_configuration-id item.configuration p)

  run_policies-ids :
      (input : EvaluationInput) (items : List ConfiguredPolicy) {b : Bool}
      {ds : List PolicyDecision}
      → run_policies rt now input items ≡ ok (b, ds)
      → map (λ d. d.policy_id) ds ≡ map (λ i. i.configuration.id) items
  unfolding run_policies
  run_policies-ids input [] {ds = ds} h = let none_ran : [] ≡ ds = cc in rw (← none_ran) refl
  run_policies-ids input (item ∷ items) {b} {ds} h =
      let ((t, d), turn, h₁) = bind-ok (run_policy rt now input item) h in
      let ((ts, ds'), rest, h₂) = bind-ok (run_policies rt now input items) h₁ in
      let same : d ∷ ds' ≡ ds = cc in
      subst (λ z. map (λ e. e.policy_id) z ≡ map (λ i. i.configuration.id) (item ∷ items)) same
        (rw (run_policy-id input item turn, run_policies-ids input items rest) refl)

-- A payment is allowed only if every policy that is enforced and denies on errors has itself
-- answered that it allows the payment: a failure, a timeout, a warning, a denial or an answer under
-- another id does not pass.
pub run_payment_policies-IsCleared :
    (rt : Runtime) (now : ℕ) (raw : EvaluationInput) (items : List ConfiguredPolicy)
    {ds : List PolicyDecision}
    → run_payment_policies rt now raw items ≡ ok (true, ds)
    → All (IsCleared raw) items
unfolding run_payment_policies parse_input
run_payment_policies-IsCleared rt now raw items h =
    let (input, p, h₁) = bind-ok (parse_input rt raw) h in
    let same : input ≡ raw = ground (arith, p) in
    subst (λ i. All (IsCleared i) items) same (run_policies-All rt now input items h₁)

-- A run that does not throw reports one decision for each policy, in their order and under their
-- ids.
pub run_payment_policies-ids :
    (rt : Runtime) (now : ℕ) (raw : EvaluationInput) (items : List ConfiguredPolicy) {b : Bool}
    {ds : List PolicyDecision}
    → run_payment_policies rt now raw items ≡ ok (b, ds)
    → map (λ d. d.policy_id) ds ≡ map (λ i. i.configuration.id) items
unfolding run_payment_policies
run_payment_policies-ids rt now raw items h =
    let (input, _, h₁) = bind-ok (parse_input rt raw) h in run_policies-ids rt now input items h₁
