-- ===== src/Resource/Settling.antt =====
-- What a settlement through the server guarantees, and the transactions that it settles.
use meterkit.Prelude.{
  ℕ, ◌<◌, ◌∙◌, String, ◌≡◌, ap, sym, subst, Option, some, lookup, set, lookup-set, Result, ok, err,
  Result-cases, Option-cases, inl, inr, bind-ok, or_throw-ok,
}
use meterkit.Platform.{Runtime}
use meterkit.Payments.{PaymentError, parse_payment, parse_payment-ok}
use meterkit.Settlement.{Transfer, SettlementError, Reply, validate}
use meterkit.Settlement.Validating.{IsFoundAt, validate-ok_iff}
use meterkit.Middleware.{Settlement}
use meterkit.Resource.{
  Payload, Requirements, Options, Server, SettleError, facilitator_failed, parties, validated,
  or_unsaved, to_transfer, to_record, settled, settle,
}

pub or_unsaved-ok :
    {A : Type 0} (m : Result PaymentError A) {a : A} → or_unsaved m ≡ ok a → m ≡ ok a
or_unsaved-ok (ok a) h = cc
or_unsaved-ok (err e) h = cc

module _ {S B E : Type 0} (rt : Runtime) (o : Options S B E) where
  -- A settlement with a transaction and a payer was validated, and its record was saved and is kept.
  pub record IsDurable (now : ℕ) (uuid : String) (payload : Payload) (r : Requirements)
      (p : String × String) (v v' : Server S B) : Type 0 where
    pub valid : validated o.settlement_validator (to_transfer r p) ≡ ok tt
    pub saved : o.store.save (to_record o.product now uuid r p) v.store ≡ ok v'.store
    pub kept : lookup payload.ref v'.settled_records ≡ some (to_record o.product now uuid r p)
    pub local : v'.local_authorizations ≡ v.local_authorizations
    pub budget : v'.budget ≡ v.budget

  pub settled-IsDurable :
      (now : ℕ) (uuid : String) (payload : Payload) (r : Requirements) (result result' : Settlement)
      (p : String × String) (v v' : Server S B)
      → settled rt o now uuid payload r result v (some p) ≡ ok (v', result')
      → (result ≡ result') × IsDurable now uuid payload r p v v'
  settled-IsDurable now uuid payload r result result' p v v' h =
      let (_, valid, h₁) = bind-ok (validated o.settlement_validator (to_transfer r p)) h in
      let (value, parsed, h₂) =
        bind-ok (or_unsaved (parse_payment (to_record o.product now uuid r p))) h₁ in
      let (s, saved, h₃) = bind-ok (or_unsaved (o.store.save value v.store)) h₂ in
      let (same, _) =
        parse_payment-ok (to_record o.product now uuid r p)
          (or_unsaved-ok (parse_payment (to_record o.product now uuid r p)) parsed) in
      let grown : record v { store = s; settled_records = set payload.ref value v.settled_records }
          ≡ v' =
        cc h₃ in
      (
        cc h₃,
        record {
          valid = valid;
          saved =
              cc (or_unsaved-ok (o.store.save value v.store) saved, same, ap (λ w. w.store) grown);
          kept =
              subst
                (λ w.
                  lookup payload.ref w.settled_records ≡ some (to_record o.product now uuid r p))
                grown (lookup-set payload.ref value v.settled_records ∙ ap some same);
          local = sym (ap (λ w. w.local_authorizations) grown);
          budget = sym (ap (λ w. w.budget) grown);
        },
      )

  pub settle-answer :
      (now : ℕ) (uuid : String) (payload : Payload) (r : Requirements) (answer : Option Settlement)
      (result : Settlement) (v v' : Server S B)
      → settle rt o now uuid payload r answer v ≡ ok (v', result)
      → (result₀ : Settlement) × (answer ≡ some result₀)
        × (settled rt o now uuid payload r result₀ v (parties result₀) ≡ ok (v', result))
  unfolding settle
  settle-answer now uuid payload r answer result v v' h = or_throw-ok answer facilitator_failed h

-- A settlement that the server reports with a transaction and a payer is the facilitator's answer; it
-- passed the validator, and its record was saved in the store and is kept for the payload.
pub settle-IsDurable :
    {S B E : Type 0} (rt : Runtime) (o : Options S B E) (now : ℕ) (uuid : String)
    (payload : Payload) (r : Requirements) (answer : Option Settlement) (result : Settlement)
    (p : String × String) (v v' : Server S B)
    → settle rt o now uuid payload r answer v ≡ ok (v', result)
    → parties result ≡ some p
    → (answer ≡ some result) × IsDurable rt o now uuid payload r p v v'
settle-IsDurable {S = S} {B = B} rt o now uuid payload r answer result p v v' h e =
    let (result₀, answered, h₁) = settle-answer rt o now uuid payload r answer result v v' h in
    elim (Option-cases (parties result₀)) [
      | inl n ↦
          let left : ◌≡◌ {A = Result SettleError (Server S B × Settlement)} (ok (v, result₀))
              (ok (v', result)) =
            rw n at h₁ in
          let same : result₀ ≡ result = cc left in cc (n, e, same)
      | inr (q, n) ↦
          let (same, d) =
            settled-IsDurable rt o now uuid payload r result₀ result q v v' (rw n at h₁) in
          let pair : q ≡ p = cc (n, e, same) in
          (cc (answered, same), subst (λ z. IsDurable rt o now uuid payload r z v v') pair d)
    ]

pub validated-ok :
    (f : Transfer → Result SettlementError (Unit {0})) (i : Transfer)
    → validated (some f) i ≡ ok tt
    → f i ≡ ok tt
validated-ok f i h = elim (Result-cases (f i)) [ inl (u, e) ↦ e | inr (x, e) ↦ cc (rw e at h) ]

-- With the RPC validator, a settlement that the server reports with a transaction and a payer moved the
-- money: one of the attempts found a transaction of that signature without an error that gives the
-- recipient exactly the amount and takes at least the amount from the payer.
pub settle-paid :
    {S B E : Type 0} (rt : Runtime) (o : Options S B E) (request : ℕ → String → Reply)
    (attempts : ℕ) (now : ℕ) (uuid : String) (payload : Payload) (r : Requirements)
    (answer : Option Settlement) (result : Settlement) (p : String × String) (v v' : Server S B)
    → o.settlement_validator ≡ some (validate request attempts)
    → 0 < attempts
    → settle rt o now uuid payload r answer v ≡ ok (v', result)
    → parties result ≡ some p
    → IsFoundAt request (to_transfer r p) 0 attempts
settle-paid rt o request attempts now uuid payload r answer result p v v' validator some_attempt h
      e =
    let (_, d) = settle-IsDurable rt o now uuid payload r answer result p v v' h e in
    (validate-ok_iff request attempts (to_transfer r p) some_attempt).0
      (validated-ok (validate request attempts) (to_transfer r p) (rw validator at (d.valid)))
