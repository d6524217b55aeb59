-- ===== src/Resource/Authorizing.antt =====
-- What a server lets pass and settles once, of what names a payer, whatever hooks the library calls in
-- whatever order.
use meterkit.Prelude.{
  ℕ, String, ◌≡◌, ◌≢◌, ◌⊎◌, refl, ap, Bool, true, false, Option, none, some, List, [], ◌∷◌, mem,
  Distinct, All, ok, Result-cases, Bool-cases, arith, inl, inr, eq_refl,
}
use meterkit.Platform.{Runtime}
use meterkit.Payments.Interface.{IsStore, IsAuthorizing}
use meterkit.Payments.Logging.{Has, IsLogged, IsLogged-start, IsLogged-keep, IsLogged-add}
use meterkit.Middleware.{Settlement}
use meterkit.Resource.{
  Payload, Requirements, Options, Server, parties, settled, settle, Verdict, done, throws, aborts,
  to_record,
}
use meterkit.Resource.Verify.{
  Verification, valid_payer, reserve_in_store, reserve_authorization, after_verify,
}
use meterkit.Resource.Finish.{
  Call, verifies, settles, concludes, fails, cancels, History, log_pass, add_print, payer_prints,
  transactions, step, run, start,
}
use meterkit.Resource.Frames.{
  IsFrame, after_verify-IsReached, after_settle-IsFrame, settle_failure-IsFrame, canceled-IsFrame,
}
use meterkit.Resource.Settling.{settled-IsDurable, settle-answer}

module _ {S B E : Type 0} (rt : Runtime) (is_uuid : String → Bool) (o : Options S B E)
    (law : IsStore o.store) (once : IsAuthorizing o.store law) where
  abbrev pub stored : Server S B → List String
  stored v = law.signatures v.store

  abbrev known_of : Option (String → S → S × Bool) → Server S B → List String
  known_of none v = v.local_authorizations
  known_of (some f) v = once.reserved v.store

  -- The authorizations that were reserved: in the store, or in the closure if the store has no such method.
  abbrev pub known : Server S B → List String
  known v = known_of o.store.reserve_authorization v

  known-same :
      (m : Option (String → S → S × Bool)) (v v' : Server S B)
      → once.reserved v'.store ≡ once.reserved v.store
      → v'.local_authorizations ≡ v.local_authorizations
      → known_of m v' ≡ known_of m v
  known-same none v v' r l = l
  known-same (some f) v v' r l = r

  record IsReserved (m : Option (String → S → S × Bool)) (print : String) (v : Server S B)
      (out : Server S B × Verdict) : Type 0 where
    stored_same : stored out.0 ≡ stored v
    kept : (k : String) → Has (known_of m) v k → Has (known_of m) out.0 k
    passed : out.1 ≡ done → (mem print (known_of m v) ≡ false) × Has (known_of m) out.0 print

  reserve_in_store-IsReserved :
      (print : String) (v : Server S B) (m : Option (String → S → S × Bool))
      → o.store.reserve_authorization ≡ m
      → IsReserved m print v (reserve_in_store rt o print v m)
  reserve_in_store-IsReserved print v none e =
      elim (Bool-cases (mem print v.local_authorizations)) [
        | inl t ↦ rw t (record { stored_same = refl; kept = λ k h. h; passed = λ h. cc h })
        | inr t ↦ rw t (record {
          stored_same = refl;
          kept = λ k h. ground (arith, h);
          passed = λ h. (t, ground (arith, eq_refl print));
        })
      ]
  reserve_in_store-IsReserved print v (some f) e = elim (Bool-cases (f print v.store).1) [
    | inl t ↦ rw t (record {
      stored_same = once.reserve_signatures f print v.store e;
      kept = λ k h. ground (arith, once.reserve_adds f print k v.store e, h);
      passed = λ h. (
        once.reserve_fresh f print v.store e t,
        ground (arith, once.reserve_adds f print print v.store e, eq_refl print),
      );
    })
    | inr t ↦ rw t (record {
      stored_same = once.reserve_signatures f print v.store e;
      kept = λ k h. ground (arith, once.reserve_adds f print k v.store e, h);
      passed = λ h. cc h;
    })
  ]

  -- The two logs of a history.
  record IsHistory (v₀ : Server S B) (h : History S B) : Type 0 where
    settled_once : IsLogged stored v₀ h.server (transactions h.settled)
    passed_once : IsLogged known v₀ h.server (payer_prints h.passed)

  frame-IsHistory :
      (v₀ : Server S B) (h : History S B) (v' : Server S B) (ps : List (Verification × String))
      → IsFrame h.server v'
      → payer_prints ps ≡ payer_prints h.passed
      → IsHistory v₀ h
      → IsHistory v₀ (record h { server = v'; passed = ps })
  frame-IsHistory v₀ h v' ps f e i =
      let s_same : stored v' ≡ stored h.server = ap law.signatures f.store in
      let k_same =
        known-same o.store.reserve_authorization h.server v' (ap once.reserved f.store) f.local in
      record {
        settled_once =
            IsLogged-keep stored v₀ h.server v' (transactions h.settled) (λ k t. rw s_same t)
              i.settled_once;
        passed_once = rw e (
            IsLogged-keep known v₀ h.server v' (payer_prints h.passed) (λ k t. rw k_same t)
              i.passed_once);
      }

  unpassed :
      (c : Verification) (x : Verdict) (print : String) (ps : List (Verification × String))
      → (valid_payer c ≡ none) ⊎ (x ≢ done)
      → payer_prints (log_pass c x print ps) ≡ payer_prints ps
  unpassed c throws print ps h = refl
  unpassed c (aborts r) print ps h = refl
  unpassed c done print ps (inl e) = rw e refl
  unpassed c done print ps (inr n) = absurd (n refl)

  reserved-IsHistory :
      (v₀ : Server S B) (h : History S B) (c : Verification) (print : String)
      (out : Server S B × Verdict)
      → IsReserved o.store.reserve_authorization print h.server out
      → IsHistory v₀ h
      → IsHistory v₀ (record h { server = out.0; passed = log_pass c out.1 print h.passed })
  reserved-IsHistory v₀ h c print (v', x) q i = record {
    settled_once =
        IsLogged-keep stored v₀ h.server v' (transactions h.settled) (λ k t. rw (q.stored_same) t)
          i.settled_once;
    passed_once = logged x q.passed;
  }
    where
      same : IsLogged known v₀ v' (payer_prints h.passed)
      same = IsLogged-keep known v₀ h.server v' (payer_prints h.passed) q.kept i.passed_once

      added :
          (w : Option String)
          → (mem print (known h.server) ≡ false) × Has known v' print
          → IsLogged known v₀ v' (add_print w print (payer_prints h.passed))
      added none p = same
      added (some w) p =
          IsLogged-add known v₀ h.server v' print (payer_prints h.passed) q.kept p.0 p.1
            i.passed_once

      logged :
          (x : Verdict)
          → (x ≡ done → (mem print (known h.server) ≡ false) × Has known v' print)
          → IsLogged known v₀ v' (payer_prints (log_pass c x print h.passed))
      logged done p = added (valid_payer c) (p refl)
      logged throws p = same
      logged (aborts r) p = same

  verify-IsHistory :
      (v₀ : Server S B) (h : History S B) (now : ℕ) (uuid : String) (payload : Payload)
      (r : Requirements) (c : Verification)
      → IsHistory v₀ h
      → IsHistory v₀ (step rt is_uuid o h (now, uuid, verifies payload r c))
  unfolding step reserve_authorization
  verify-IsHistory v₀ h now uuid payload r c i =
      elim (after_verify-IsReached rt o now uuid payload r c h.server) [
        | inl (f, e) ↦
            frame-IsHistory v₀ h _ _ f
              (unpassed c (after_verify rt o now uuid payload r c h.server).1
                (rt.sha256_hex payload.json) h.passed e)
              i
        | inr (v₁, f, e) ↦ rw e (
            reserved-IsHistory v₀ (record h { server = v₁ }) c (rt.sha256_hex payload.json) _
              (reserve_in_store-IsReserved (rt.sha256_hex payload.json) v₁
                o.store.reserve_authorization refl)
              (frame-IsHistory v₀ h v₁ h.passed f refl i))
      ]

  settle-IsHistory :
      (v₀ : Server S B) (h : History S B) (now : ℕ) (uuid : String) (payload : Payload)
      (r : Requirements) (result result' : Settlement) (v' : Server S B)
      (w : Option (String × String))
      → settled rt o now uuid payload r result h.server w ≡ ok (v', result')
      → parties result ≡ w
      → IsHistory v₀ h
      → IsHistory v₀ (record h { server = v'; settled = result' ∷ h.settled })
  settle-IsHistory v₀ h now uuid payload r result result' v' none e p i =
      let out : result ≡ result' = cc e in
      let same : h.server ≡ v' = cc e in
      rw (← out, ← same)
        (record { settled_once = rw p (i.settled_once); passed_once = i.passed_once })
  settle-IsHistory v₀ h now uuid payload r result result' v' (some (t, w)) e p i =
      let (out, d) =
        settled-IsDurable rt o now uuid payload r result result' (t, w) h.server v' e in
      let value = to_record o.product now uuid r (t, w) in
      let local : v'.local_authorizations ≡ h.server.local_authorizations = d.local in
      let k_same =
        known-same o.store.reserve_authorization h.server v'
          (once.save_reserved value h.server.store v'.store d.saved) local in
      rw (← out) (record {
        settled_once = rw p (
            IsLogged-add stored v₀ h.server v' t (transactions h.settled)
              (λ k q. ground (arith, law.save_adds value h.server.store v'.store k d.saved, q))
              (law.save_fresh value h.server.store v'.store d.saved)
              (ground (arith, law.save_adds value h.server.store v'.store t d.saved, eq_refl t))
              i.settled_once);
        passed_once =
            IsLogged-keep known v₀ h.server v' (payer_prints h.passed) (λ k q. rw k_same q)
              i.passed_once;
      })

  step-IsHistory :
      (v₀ : Server S B) (h : History S B) (c : ℕ × String × Call)
      → IsHistory v₀ h
      → IsHistory v₀ (step rt is_uuid o h c)
  step-IsHistory v₀ h (now, uuid, verifies payload r c) i =
      verify-IsHistory v₀ h now uuid payload r c i
  step-IsHistory v₀ h (now, uuid, settles payload r answer) i =
      unfold step in
      elim (Result-cases (settle rt o now uuid payload r answer h.server)) [
        | inl ((v', result'), e) ↦
            let (result, _, d) =
              settle-answer rt o now uuid payload r answer result' h.server v' e in
            rw e
              (settle-IsHistory v₀ h now uuid payload r result result' v' (parties result) d refl i)
        | inr (x, e) ↦ rw e i
      ]
  step-IsHistory v₀ h (now, uuid, concludes payload r result) i =
      unfold step in
      frame-IsHistory v₀ h _ h.passed
        (after_settle-IsFrame rt is_uuid o now uuid payload r result h.server) refl i
  step-IsHistory v₀ h (now, uuid, fails payload) i =
      unfold step in
      frame-IsHistory v₀ h _ h.passed (settle_failure-IsFrame rt is_uuid o now payload h.server)
        refl i
  step-IsHistory v₀ h (now, uuid, cancels payload) i =
      unfold step in
      frame-IsHistory v₀ h _ h.passed (canceled-IsFrame rt is_uuid o now payload h.server) refl i

  run-IsHistory :
      (v₀ : Server S B) (h : History S B) (cs : List (ℕ × String × Call))
      → IsHistory v₀ h
      → IsHistory v₀ (run rt is_uuid o h cs)
  unfolding run
  run-IsHistory v₀ h [] i = i
  run-IsHistory v₀ h (c ∷ cs) i =
      run-IsHistory v₀ (step rt is_uuid o h c) cs (step-IsHistory v₀ h c i)

  start-IsHistory : (v : Server S B) → IsHistory v (start v)
  start-IsHistory v = record {
    settled_once = IsLogged-start stored v;
    passed_once = IsLogged-start known v;
  }

  -- Whatever the library calls in whatever order: of the settlements that the server reports as a success with a
  -- transaction and a payer, no two have the same transaction, the transaction of each is stored, and none
  -- of these was stored before. A success without a payer or a transaction is not among them.
  pub run-settles_once :
      (v : Server S B) (cs : List (ℕ × String × Call))
      → Distinct (transactions (run rt is_uuid o (start v) cs).settled)
        × All
            (λ k. mem k (stored (run rt is_uuid o (start v) cs).server) ≡ true)
            (transactions (run rt is_uuid o (start v) cs).settled)
        × All (λ k. mem k (stored v) ≡ false) (transactions (run rt is_uuid o (start v) cs).settled)
  run-settles_once v cs =
      let i = (run-IsHistory v (start v) cs (start-IsHistory v)).settled_once in
      (i.distinct, i.held, i.fresh)

  -- Whatever the library calls in whatever order: of the payment authorizations that pass the verification hook as
  -- valid and with a payer, no two have the same digest, each one is reserved, and none of them was reserved
  -- before. A valid verification without a payer passes too, and is not among them.
  pub run-passes_once :
      (v : Server S B) (cs : List (ℕ × String × Call))
      → Distinct (payer_prints (run rt is_uuid o (start v) cs).passed)
        × All
            (λ k. mem k (known (run rt is_uuid o (start v) cs).server) ≡ true)
            (payer_prints (run rt is_uuid o (start v) cs).passed)
        × All (λ k. mem k (known v) ≡ false) (payer_prints (run rt is_uuid o (start v) cs).passed)
  run-passes_once v cs =
      let i = (run-IsHistory v (start v) cs (start-IsHistory v)).passed_once in
      (i.distinct, i.held, i.fresh)
