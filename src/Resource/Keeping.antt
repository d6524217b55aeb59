-- ===== src/Resource/Keeping.antt =====
-- What the hooks of the server keep of the agent budget: all that the operations of its guard keep.
use meterkit.Prelude.{
  ℕ, String, ◌≡◌, ◌⊎◌, refl, subst, Bool, true, false, ◌&&◌, Option, none, some, List, [], ◌∷◌,
  lookup, Result, ok, err, Result-cases, Bool-cases, arith, inl, inr,
}
use meterkit.Platform.{Runtime}
use meterkit.Authorization.Budget.{BudgetReservation, Guard, reserve, consume, release}
use meterkit.Authorization.Checks.{BudgetRequest}
use meterkit.Payments.{Payment}
use meterkit.Policies.{ConfiguredPolicy, PolicyDecision, PolicyError}
use meterkit.Receipts.{Receipt, is_receipt}
use meterkit.Middleware.{Settlement}
use meterkit.Resource.Settling.{settled-IsDurable, settle-answer}
use meterkit.Resource
use meterkit.Resource.{
  Payload, Requirements, Options, Server, SettleError, parties, settle, Verdict, done,
}
use meterkit.Resource.Verify.{
  to_budget_request, valid_payer, reserve_in_store, reserve_authorization, after_reserve,
  reserve_budget, after_policies, check_policies, verified, after_verify,
}
use meterkit.Resource.Finish.{
  publish, after_consume, consume_budget, recorded, after_settle, after_release, release_budget,
  settle_failure, verified_payment_canceled, Call, verifies, settles, concludes, fails, cancels,
  History, step, run,
}

-- What the operations of a guard keep.
pub record IsKept {B E : Type 0} (rt : Runtime) (P : B → Type 0) (guard : ℕ → Guard B E)
    : Type 0 where
  pub reserve_keeps :
      (now : ℕ) (uuid : String) (i : BudgetRequest) (b b' : B) (held : BudgetReservation)
      → reserve rt (guard now) now uuid i b ≡ ok (b', held)
      → P b
      → P b'
  pub consume_keeps :
      (now : ℕ) (id : String) (b b' : B) (x : Bool)
      → consume rt (guard now) id b ≡ ok (b', x)
      → P b
      → P b'
  pub release_keeps :
      (now : ℕ) (id : String) (b b' : B) (x : Bool)
      → release rt (guard now) id b ≡ ok (b', x)
      → P b
      → P b'

module _ {S B E : Type 0} (rt : Runtime) (is_uuid : String → Bool) (o : Options S B E)
    (P : B → Type 0) (guard : ℕ → Guard B E) (k : IsKept rt P guard) where
  reserve_in_store-budget :
      (print : String) (v : Server S B) (m : Option (String → S → S × Bool))
      → (reserve_in_store rt o print v m).0.budget ≡ v.budget
  reserve_in_store-budget print v none = ground arith
  reserve_in_store-budget print v (some f) = ground arith

  reserve_authorization-budget :
      (payload : Payload) (v : Server S B)
      → (reserve_authorization rt o payload v).0.budget ≡ v.budget
  unfolding reserve_authorization
  reserve_authorization-budget payload v = reserve_in_store-budget _ v o.store.reserve_authorization

  reserve_budget-keeps :
      (now : ℕ) (uuid : String) (payload : Payload) (r : Requirements) (payer : String)
      (v : Server S B) (g : Option (ℕ → Guard B E))
      → (g ≡ none) ⊎ (g ≡ some guard)
      → P v.budget
      → P (reserve_budget rt o now uuid payload r payer v g).0.budget
  reserve_budget-keeps now uuid payload r payer v none e p =
      rw (reserve_authorization-budget payload v) p
  reserve_budget-keeps now uuid payload r payer v (some g) (inl e) p = cc e
  reserve_budget-keeps now uuid payload r payer v (some g) (inr e) p =
      let same : guard ≡ g = cc e in
      subst (λ x. P (reserve_budget rt o now uuid payload r payer v (some x)).0.budget) same
        (reserved (to_budget_request o.product payload r payer))
    where
      reserved :
          (i : BudgetRequest)
          → P (after_reserve rt o payload v (reserve rt (guard now) now uuid i v.budget)).0.budget
      reserved i = elim (Result-cases (reserve rt (guard now) now uuid i v.budget)) [
        | inl ((b', held), e) ↦
            rw (e, reserve_authorization-budget payload _)
              (k.reserve_keeps now uuid i v.budget b' held e p)
        | inr (x, e) ↦ rw e p
      ]

  module _ (given : (o.agent_budget ≡ none) ⊎ (o.agent_budget ≡ some guard)) where
    after_policies-keeps :
        (now : ℕ) (uuid : String) (payload : Payload) (r : Requirements) (payer : String)
        (v : Server S B) (m : Result PolicyError (Bool × List PolicyDecision))
        → P v.budget
        → P (after_policies rt o now uuid payload r payer v m).0.budget
    after_policies-keeps now uuid payload r payer v (err e) p = p
    after_policies-keeps now uuid payload r payer v (ok (false, ds)) p = p
    after_policies-keeps now uuid payload r payer v (ok (true, ds)) p =
        reserve_budget-keeps now uuid payload r payer _ o.agent_budget given p

    check_policies-keeps :
        (now : ℕ) (uuid : String) (payload : Payload) (r : Requirements) (payer : String)
        (v : Server S B) (ps : List ConfiguredPolicy)
        → P v.budget
        → P (check_policies rt o now uuid payload r payer v ps).0.budget
    check_policies-keeps now uuid payload r payer v [] p =
        reserve_budget-keeps now uuid payload r payer v o.agent_budget given p
    check_policies-keeps now uuid payload r payer v (q ∷ qs) p =
        after_policies-keeps now uuid payload r payer v _ p

    verified-keeps :
        (now : ℕ) (uuid : String) (payload : Payload) (r : Requirements) (v : Server S B)
        (w : Option String)
        → P v.budget
        → P (verified rt o now uuid payload r v w).0.budget
    verified-keeps now uuid payload r v none p = p
    verified-keeps now uuid payload r v (some payer) p =
        check_policies-keeps now uuid payload r payer v o.policies p

    publish-keeps :
        (payload : Payload) (q : Receipt) (v : Server S B)
        → P v.budget
        → P (publish rt is_uuid o payload q v).0.budget
    unfolding publish
    publish-keeps payload q v p = elim (Bool-cases (is_receipt rt is_uuid q && o.on_receipt q)) [
      | inl e ↦ rw e p
      | inr e ↦ rw e p
    ]

    consume_budget-keeps :
        (now : ℕ) (payload : Payload) (q : Receipt) (v : Server S B)
        (held : Option BudgetReservation) (g : Option (ℕ → Guard B E))
        → (g ≡ none) ⊎ (g ≡ some guard)
        → P v.budget
        → P (consume_budget rt is_uuid o now payload q v held g).0.budget
    consume_budget-keeps now payload q v none g e p = publish-keeps payload q v p
    consume_budget-keeps now payload q v (some held) none e p = p
    consume_budget-keeps now payload q v (some held) (some g) (inl e) p = cc e
    consume_budget-keeps now payload q v (some held) (some g) (inr e) p =
        let same : guard ≡ g = cc e in
        subst (λ x. P (consume_budget rt is_uuid o now payload q v (some held) (some x)).0.budget)
          same (settled (consume rt (guard now) held.reservation_id v.budget) refl)
      where
        settled :
            (m : Result E (B × Bool))
            → consume rt (guard now) held.reservation_id v.budget ≡ m
            → P (after_consume rt is_uuid o payload q v m).0.budget
        settled (err x) h = p
        settled (ok (b', false)) h = k.consume_keeps now held.reservation_id v.budget b' false h p
        settled (ok (b', true)) h =
            publish-keeps payload q _ (k.consume_keeps now held.reservation_id v.budget b' true h p)

    recorded-keeps :
        (now : ℕ) (uuid : String) (payload : Payload) (r : Requirements) (v : Server S B)
        (w : Option (String × String)) (value : Option Payment)
        → P v.budget
        → P (recorded rt is_uuid o now uuid payload r v w value).0.budget
    recorded-keeps now uuid payload r v none value p = p
    recorded-keeps now uuid payload r v (some w) none p = p
    recorded-keeps now uuid payload r v (some w) (some value) p =
        consume_budget-keeps now payload _ v _ o.agent_budget given p

    release_budget-keeps :
        (now : ℕ) (payload : Payload) (v : Server S B) (held : Option BudgetReservation)
        (g : Option (ℕ → Guard B E))
        → (g ≡ none) ⊎ (g ≡ some guard)
        → P v.budget
        → P (release_budget rt is_uuid o now payload v held g).0.budget
    release_budget-keeps now payload v none g e p = p
    release_budget-keeps now payload v (some held) none e p = p
    release_budget-keeps now payload v (some held) (some g) (inl e) p = cc e
    release_budget-keeps now payload v (some held) (some g) (inr e) p =
        let same : guard ≡ g = cc e in
        subst (λ x. P (release_budget rt is_uuid o now payload v (some held) (some x)).0.budget)
          same (given_back (release rt (guard now) held.reservation_id v.budget) refl)
      where
        given_back :
            (m : Result E (B × Bool))
            → release rt (guard now) held.reservation_id v.budget ≡ m
            → P (after_release rt is_uuid o payload v m).0.budget
        given_back (err x) h = p
        given_back (ok (b', x)) h = k.release_keeps now held.reservation_id v.budget b' x h p

    settled-keeps :
        (now : ℕ) (uuid : String) (payload : Payload) (r : Requirements)
        (result result' : Settlement) (v v' : Server S B) (w : Option (String × String))
        → Resource.settled rt o now uuid payload r result v w ≡ ok (v', result')
        → P v.budget
        → P v'.budget
    settled-keeps now uuid payload r result result' v v' none h p =
        let same : v ≡ v' = cc h in rw (← same) p
    settled-keeps now uuid payload r result result' v v' (some w) h p =
        rw ((settled-IsDurable rt o now uuid payload r result result' w v v' h).1.budget) p

    step-keeps :
        (h : History S B) (c : ℕ × String × Call)
        → P h.server.budget
        → P (step rt is_uuid o h c).server.budget
    step-keeps h (now, uuid, verifies payload r c) p =
        unfold step in
        unfold after_verify in verified-keeps now uuid payload r h.server (valid_payer c) p
    step-keeps h (now, uuid, settles payload r answer) p =
        unfold step in
        elim (Result-cases (settle rt o now uuid payload r answer h.server)) [
          | inl ((v', result'), e) ↦
              let (result, _, d) =
                settle-answer rt o now uuid payload r answer result' h.server v' e in
              rw e
                (settled-keeps now uuid payload r result result' h.server v' (parties result) d p)
          | inr (x, e) ↦ rw e p
        ]
    step-keeps h (now, uuid, concludes payload r result) p =
        unfold step in
        unfold after_settle in
        recorded-keeps now uuid payload r h.server (parties result)
          (lookup payload.ref h.server.settled_records) p
    step-keeps h (now, uuid, fails payload) p =
        unfold step in
        unfold settle_failure in
        release_budget-keeps now payload h.server (lookup payload.ref h.server.budget_reservations)
          o.agent_budget given p
    step-keeps h (now, uuid, cancels payload) p =
        unfold step in
        unfold verified_payment_canceled in
        release_budget-keeps now payload h.server (lookup payload.ref h.server.budget_reservations)
          o.agent_budget given p

    pub run-keeps :
        (h : History S B) (cs : List (ℕ × String × Call))
        → P h.server.budget
        → P (run rt is_uuid o h cs).server.budget
    unfolding run
    run-keeps h [] p = p
    run-keeps h (c ∷ cs) p = run-keeps (step rt is_uuid o h c) cs (step-keeps h c p)
