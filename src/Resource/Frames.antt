-- ===== src/Resource/Frames.antt =====
-- What the hooks leave alone: the store and the authorizations, but for the last part of `onAfterVerify`.
use meterkit.Prelude.{
  ℕ, String, ◌≡◌, ◌≢◌, ◌⊎◌, refl, Bool, true, false, ◌&&◌, Option, none, some, List, [], ◌∷◌,
  lookup, Result, ok, err, Bool-cases, inl, inr,
}
use meterkit.Platform.{Runtime}
use meterkit.Payments.{Payment}
use meterkit.Policies.{ConfiguredPolicy, PolicyDecision, PolicyError}
use meterkit.Receipts.{Receipt, is_receipt}
use meterkit.Middleware.{Settlement}
use meterkit.Authorization.Budget.{Guard, BudgetReservation, BudgetError}
use meterkit.Resource.{Payload, Requirements, Options, Server, Verdict, done, parties}
use meterkit.Resource.Verify.{
  Verification, valid_payer, reserve_authorization, after_reserve, reserve_budget, after_policies,
  check_policies, verified, after_verify,
}
use meterkit.Resource.Finish.{
  publish, after_consume, consume_budget, recorded, after_settle, after_release, release_budget,
  settle_failure, verified_payment_canceled,
}

pub record IsFrame {S B : Type 0} (v v' : Server S B) : Type 0 where
  pub store : v'.store ≡ v.store
  pub local : v'.local_authorizations ≡ v.local_authorizations

framed : {S B : Type 0} (v : Server S B) → IsFrame v v
framed v = record { store = refl; local = refl }

module _ {S B E : Type 0} (rt : Runtime) (o : Options S B E) where
  -- A verification stops before the authorization without passing, or comes down to it.
  abbrev pub IsReached : Payload → Server S B → Option String → Server S B × Verdict → Type 0
  IsReached payload v payer out =
      (IsFrame v out.0 × ((payer ≡ none) ⊎ (out.1 ≢ done)))
      ⊎ ((v₁ : Server S B) × IsFrame v v₁ × (out ≡ reserve_authorization rt o payload v₁))

  after_reserve-IsReached :
      (payload : Payload) (v₀ v : Server S B) (w : Option String)
      (m : Result (BudgetError E) (B × BudgetReservation))
      → IsFrame v₀ v
      → IsReached payload v₀ w (after_reserve rt o payload v m)
  after_reserve-IsReached payload v₀ v w (err e) f = inl (f, inr (λ h. cc h))
  after_reserve-IsReached payload v₀ v w (ok (b, held)) f =
      inr (_, record { store = f.store; local = f.local }, refl)

  reserve_budget-IsReached :
      (now : ℕ) (uuid : String) (payload : Payload) (r : Requirements) (payer : String)
      (v₀ v : Server S B) (w : Option String) (g : Option (ℕ → Guard B E))
      → IsFrame v₀ v
      → IsReached payload v₀ w (reserve_budget rt o now uuid payload r payer v g)
  reserve_budget-IsReached now uuid payload r payer v₀ v w none f = inr (v, f, refl)
  reserve_budget-IsReached now uuid payload r payer v₀ v w (some guard) f =
      after_reserve-IsReached payload v₀ v w _ f

  after_policies-IsReached :
      (now : ℕ) (uuid : String) (payload : Payload) (r : Requirements) (payer : String)
      (v : Server S B) (w : Option String) (m : Result PolicyError (Bool × List PolicyDecision))
      → IsReached payload v w (after_policies rt o now uuid payload r payer v m)
  after_policies-IsReached now uuid payload r payer v w (err e) = inl (framed v, inr (λ h. cc h))
  after_policies-IsReached now uuid payload r payer v w (ok (false, ds)) =
      inl (record { store = refl; local = refl }, inr (λ h. cc h))
  after_policies-IsReached now uuid payload r payer v w (ok (true, ds)) =
      reserve_budget-IsReached now uuid payload r payer v _ w o.agent_budget
        (record { store = refl; local = refl })

  check_policies-IsReached :
      (now : ℕ) (uuid : String) (payload : Payload) (r : Requirements) (payer : String)
      (v : Server S B) (w : Option String) (ps : List ConfiguredPolicy)
      → IsReached payload v w (check_policies rt o now uuid payload r payer v ps)
  check_policies-IsReached now uuid payload r payer v w [] =
      reserve_budget-IsReached now uuid payload r payer v v w o.agent_budget (framed v)
  check_policies-IsReached now uuid payload r payer v w (p ∷ ps) =
      after_policies-IsReached now uuid payload r payer v w _

  verified-IsReached :
      (now : ℕ) (uuid : String) (payload : Payload) (r : Requirements) (v : Server S B)
      (w : Option String)
      → IsReached payload v w (verified rt o now uuid payload r v w)
  verified-IsReached now uuid payload r v none = inl (framed v, inl refl)
  verified-IsReached now uuid payload r v (some payer) =
      check_policies-IsReached now uuid payload r payer v (some payer) o.policies

  pub after_verify-IsReached :
      (now : ℕ) (uuid : String) (payload : Payload) (r : Requirements) (c : Verification)
      (v : Server S B)
      → IsReached payload v (valid_payer c) (after_verify rt o now uuid payload r c v)
  unfolding after_verify
  after_verify-IsReached now uuid payload r c v =
      verified-IsReached now uuid payload r v (valid_payer c)

module _ {S B E : Type 0} (rt : Runtime) (is_uuid : String → Bool) (o : Options S B E) where
  publish-IsFrame :
      (payload : Payload) (q : Receipt) (v₀ v : Server S B)
      → IsFrame v₀ v
      → IsFrame v₀ (publish rt is_uuid o payload q v).0
  unfolding publish
  publish-IsFrame payload q v₀ v f = elim (Bool-cases (is_receipt rt is_uuid q && o.on_receipt q)) [
    | inl e ↦ rw e (record { store = f.store; local = f.local })
    | inr e ↦ rw e f
  ]

  after_consume-IsFrame :
      (payload : Payload) (q : Receipt) (v : Server S B) (m : Result E (B × Bool))
      → IsFrame v (after_consume rt is_uuid o payload q v m).0
  after_consume-IsFrame payload q v (err e) = framed v
  after_consume-IsFrame payload q v (ok (b, false)) = record { store = refl; local = refl }
  after_consume-IsFrame payload q v (ok (b, true)) =
      publish-IsFrame payload q v _ (record { store = refl; local = refl })

  consume_budget-IsFrame :
      (now : ℕ) (payload : Payload) (q : Receipt) (v : Server S B) (held : Option BudgetReservation)
      (g : Option (ℕ → Guard B E))
      → IsFrame v (consume_budget rt is_uuid o now payload q v held g).0
  consume_budget-IsFrame now payload q v none g = publish-IsFrame payload q v v (framed v)
  consume_budget-IsFrame now payload q v (some held) none = framed v
  consume_budget-IsFrame now payload q v (some held) (some guard) =
      after_consume-IsFrame payload q v _

  recorded-IsFrame :
      (now : ℕ) (uuid : String) (payload : Payload) (r : Requirements) (v : Server S B)
      (p : Option (String × String)) (value : Option Payment)
      → IsFrame v (recorded rt is_uuid o now uuid payload r v p value).0
  recorded-IsFrame now uuid payload r v none value = framed v
  recorded-IsFrame now uuid payload r v (some p) none = framed v
  recorded-IsFrame now uuid payload r v (some p) (some value) =
      consume_budget-IsFrame now payload _ v _ o.agent_budget

  pub after_settle-IsFrame :
      (now : ℕ) (uuid : String) (payload : Payload) (r : Requirements) (result : Settlement)
      (v : Server S B)
      → IsFrame v (after_settle rt is_uuid o now uuid payload r result v).0
  unfolding after_settle
  after_settle-IsFrame now uuid payload r result v =
      recorded-IsFrame now uuid payload r v (parties result) (lookup payload.ref v.settled_records)

  after_release-IsFrame :
      (payload : Payload) (v : Server S B) (m : Result E (B × Bool))
      → IsFrame v (after_release rt is_uuid o payload v m).0
  after_release-IsFrame payload v (err e) = framed v
  after_release-IsFrame payload v (ok (b, released)) = record { store = refl; local = refl }

  release_budget-IsFrame :
      (now : ℕ) (payload : Payload) (v : Server S B) (held : Option BudgetReservation)
      (g : Option (ℕ → Guard B E))
      → IsFrame v (release_budget rt is_uuid o now payload v held g).0
  release_budget-IsFrame now payload v none g = record { store = refl; local = refl }
  release_budget-IsFrame now payload v (some held) none = record { store = refl; local = refl }
  release_budget-IsFrame now payload v (some held) (some guard) = after_release-IsFrame payload v _

  pub settle_failure-IsFrame :
      (now : ℕ) (payload : Payload) (v : Server S B)
      → IsFrame v (settle_failure rt is_uuid o now payload v).0
  unfolding settle_failure
  settle_failure-IsFrame now payload v =
      release_budget-IsFrame now payload v (lookup payload.ref v.budget_reservations) o.agent_budget

  pub canceled-IsFrame :
      (now : ℕ) (payload : Payload) (v : Server S B)
      → IsFrame v (verified_payment_canceled rt is_uuid o now payload v).0
  unfolding verified_payment_canceled
  canceled-IsFrame now payload v =
      release_budget-IsFrame now payload v (lookup payload.ref v.budget_reservations) o.agent_budget
