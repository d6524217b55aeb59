-- ===== src/Middleware/Serving.antt =====
-- Which requests reach the handler, whatever requests overlap.
use meterkit.Prelude.{
  String, ◌≡◌, refl, true, false, List, [], ◌∷◌, mem, Distinct, All, if◌then◌else◌, ok,
  Result-cases, arith, inl, inr, eq_refl, Option-cases,
}
use meterkit.Platform.{Runtime}
use meterkit.Products.{Product}
use meterkit.Payments.{Payment, PaymentError}
use meterkit.Payments.Interface.{PaymentStore, IsStore, is_replayed}
use meterkit.Payments.Logging.{Has, IsLogged, IsLogged-start, IsLogged-keep, IsLogged-add}
use meterkit.Middleware.{
  Exchange, Outcome, next, malformed_payment, payment_replayed, payment_required, payment_invalid,
  wrong_network, prepare, complete, Server, Event, arrives, resumes, serve, step, run, start, nth,
}

module _ {S : Type 0} (rt : Runtime) (product : Product) (store : PaymentStore S)
    (law : IsStore store) where
  -- What a step does to the signatures, with the outcome of its request.
  record IsAdded (s s' : S) (o : Outcome) : Type 0 where
    kept : (k : String) → Has law.signatures s k → Has law.signatures s' k
    fresh : (t w : String) → o ≡ next t w → mem t (law.signatures s) ≡ false
    added : (t w : String) → o ≡ next t w → Has law.signatures s' t

  complete-IsAdded :
      (x : Exchange) (p : Payment) (s : S)
      → IsAdded s (complete rt product store x p s).0 (complete rt product store x p s).1
  unfolding complete
  complete-IsAdded x p s = elim (Result-cases (store.save p s)) [
    | inl (s', e) ↦ rw e (stored s' e)
    | inr (c, e) ↦ rw e (refused c)
  ]
    where
      stored :
          (s' : S)
          → store.save p s ≡ ok s'
          → IsAdded s s' (if x.on_settled p then next p.signature p.payer else malformed_payment)
      stored s' e = record {
        kept = λ k h. ground (arith, law.save_adds p s s' k e, h);
        fresh = λ t w h. ground (arith, law.save_fresh p s s' e, h);
        added = λ t w h. ground (arith, law.save_adds p s s' t e, eq_refl p.signature, h);
      }

      refused :
          (c : PaymentError)
          → IsAdded s s (if is_replayed c then payment_replayed else malformed_payment)
      refused c = record {
        kept = λ k h. h;
        fresh = λ t w h. ground (arith, h);
        added = λ t w h. ground (arith, h);
      }

  -- The log of the served signatures.
  abbrev IsServing : S → Server S → Type 0
  IsServing s₀ v = IsLogged law.signatures s₀ v.store v.served

  serve-IsServing :
      (s₀ s s' : S) (o : Outcome) (served : List String)
      → IsAdded s s' o
      → IsLogged law.signatures s₀ s served
      → IsLogged law.signatures s₀ s' (serve o served)
  serve-IsServing s₀ s s' (next t w) served a =
      IsLogged-add law.signatures s₀ s s' t served a.kept (a.fresh t w refl) (a.added t w refl)
  serve-IsServing s₀ s s' payment_required served a =
      IsLogged-keep law.signatures s₀ s s' served a.kept
  serve-IsServing s₀ s s' payment_invalid served a =
      IsLogged-keep law.signatures s₀ s s' served a.kept
  serve-IsServing s₀ s s' wrong_network served a =
      IsLogged-keep law.signatures s₀ s s' served a.kept
  serve-IsServing s₀ s s' payment_replayed served a =
      IsLogged-keep law.signatures s₀ s s' served a.kept
  serve-IsServing s₀ s s' malformed_payment served a =
      IsLogged-keep law.signatures s₀ s s' served a.kept

  step-IsServing :
      (s₀ : S) (v : Server S) (e : Event)
      → IsServing s₀ v
      → IsServing s₀ (step rt product store v e)
  unfolding step
  step-IsServing s₀ v (arrives x) i = elim (Result-cases (prepare rt product store x v.store)) [
    | inl (p, e) ↦ rw e i
    | inr (o, e) ↦ rw e i
  ]
  step-IsServing s₀ v (resumes n) i = elim (Option-cases (nth n v.pending)) [
    | inl e ↦ rw e i
    | inr ((x, p), e) ↦
        rw e (serve-IsServing s₀ v.store _ _ v.served (complete-IsAdded x p v.store) i)
  ]

  run-IsServing :
      (s₀ : S) (v : Server S) (es : List Event)
      → IsServing s₀ v
      → IsServing s₀ (run rt product store v es)
  unfolding run
  run-IsServing s₀ v [] i = i
  run-IsServing s₀ v (e ∷ es) i =
      run-IsServing s₀ (step rt product store v e) es (step-IsServing s₀ v e i)

-- Over a store that refuses replays and in whatever order overlapping requests arrive and go on, the
-- handler runs at most once for a signature, only for signatures that are stored then, and for none that
-- the store held at the start.
pub run-serves_once :
    {S : Type 0} (rt : Runtime) (product : Product) (store : PaymentStore S) (law : IsStore store)
    (s : S) (es : List Event)
    → Distinct (run rt product store (start s) es).served
      × All
          (λ k. mem k (law.signatures (run rt product store (start s) es).store) ≡ true)
          (run rt product store (start s) es).served
      × All (λ k. mem k (law.signatures s) ≡ false) (run rt product store (start s) es).served
run-serves_once rt product store law s es =
    let i = run-IsServing rt product store law s (start s) es (IsLogged-start law.signatures s) in
    (i.distinct, i.held, i.fresh)
