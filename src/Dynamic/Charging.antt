-- ===== src/Dynamic/Charging.antt =====
-- What `onAfterSettle` of `createDynamicX402Middleware` in packages/sdk/src/index.ts charges.
use meterkit.Prelude.{
  arith, ℕ, String, ◌≡◌, ◌∙◌, subst, ap, Option, some, Result, ok, err, bind-ok, or_throw-ok, ◌⊎◌,
  inl, inr, Option-cases, ◌<◌, none,
}
use meterkit.Platform.{truthy}
use meterkit.Products.{Product}
use meterkit.Payments.{parse_payment, parse_payment-ok}
use meterkit.Payments.Interface.{PaymentStore}
use meterkit.Settlement.{Transfer, SettlementError, Reply, validate}
use meterkit.Settlement.Validating.{IsFoundAt, validate-ok_iff}
use meterkit.Middleware.{Settlement}
use meterkit.Resource.{
  Requirements, SettleError, parties, validated, or_unsaved, to_transfer, to_record,
}
use meterkit.Resource.Settling.{or_unsaved-ok, validated-ok}
use meterkit.Dynamic.{
  Scope, payment_path_missing, product_route_invalid, or_failed, parse_product_scope,
  product_from_path, charge, after_settle,
}
use meterkit.Dynamic.Scoping.{route, parse_product_scope_iff}

or_failed-ok : {A : Type 0} (m : Result SettleError A) {a : A} → or_failed m ≡ ok a → m ≡ ok a
or_failed-ok (ok a) h = cc
or_failed-ok (err e) h = cc

module _ {S : Type 0} (resolve_product : Scope → Option Product) (store : PaymentStore S)
    (validator : Option (Transfer → Result SettlementError (Unit {0}))) where
  -- The payment was validated and saved as one of the product that the path names.
  pub record IsCharged (now : ℕ) (uuid : String) (path : Option String) (r : Requirements)
      (p : String × String) (s s' : S) : Type 0 where
    pub scope : Scope
    pub product : Product
    pub routed : truthy path ≡ some (route scope)
    pub resolved : resolve_product scope ≡ some product
    pub valid : validated validator (to_transfer r p) ≡ ok tt
    pub saved : store.save (to_record product now uuid r p) s ≡ ok s'

  charge-ok :
      (now : ℕ) (uuid : String) (r : Requirements) (p : String × String) (product : Product)
      (s s' : S)
      → charge resolve_product store validator now uuid r s p product ≡ ok s'
      → (validated validator (to_transfer r p) ≡ ok tt)
        × (store.save (to_record product now uuid r p) s ≡ ok s')
  charge-ok now uuid r p product s s' h =
      let value = to_record product now uuid r p in
      let (_, valid, h₁) = bind-ok (or_failed (validated validator (to_transfer r p))) h in
      let (parsed, e, saved) = bind-ok (or_failed (or_unsaved (parse_payment value))) h₁ in
      let (same, _) =
        parse_payment-ok value (
          or_unsaved-ok (parse_payment value)
            (or_failed-ok (or_unsaved (parse_payment value)) e)) in
      let written =
        or_unsaved-ok (store.save parsed s)
          (or_failed-ok (or_unsaved (store.save parsed s)) saved) in
      (
        or_failed-ok (validated validator (to_transfer r p)) valid,
        subst (λ q. store.save q s ≡ ok s') same written,
      )

  -- A hook that does not throw for a settlement with a transaction and a payer has charged for it.
  after_settle-IsCharged :
      (now : ℕ) (uuid : String) (path : Option String) (r : Requirements) (result : Settlement)
      (p : String × String) (s s' : S)
      → after_settle resolve_product store validator now uuid path r result s ≡ ok s'
      → parties result ≡ some p
      → IsCharged now uuid path r p s s'
  unfolding after_settle product_from_path
  after_settle-IsCharged now uuid path r result p s s' h e =
      let (given, has_path, h₁) = or_throw-ok (truthy path) payment_path_missing (rw e at h) in
      let (product, found, h₂) =
        bind-ok (product_from_path resolve_product store validator given) h₁ in
      let (scope, parsed, found₁) =
        or_throw-ok (parse_product_scope given) product_route_invalid found in
      let (valid, saved) = charge-ok now uuid r p product s s' h₂ in
      record {
        scope = scope;
        product = product;
        routed = has_path ∙ ap some ((parse_product_scope_iff given scope).0 parsed).2;
        resolved = ground (arith, found₁);
        valid = valid;
        saved = saved;
      }

-- What the hook leaves, with the RPC validator, where it does not throw. For a settlement that is no success with a
-- transaction and a payer the payments are as they were. For any other one, the path is the route of a
-- product, the payment was saved as one for this product, and one of the attempts found a transaction of that
-- signature without an error that gives the recipient exactly the amount and takes at least the amount
-- from the payer.
pub after_settle-IsPaid :
    {S : Type 0} (resolve_product : Scope → Option Product) (store : PaymentStore S)
    (request : ℕ → String → Reply) (attempts now : ℕ) (uuid : String) (path : Option String)
    (r : Requirements) (result : Settlement) (s s' : S)
    → 0 < attempts
    → after_settle resolve_product store (some (validate request attempts)) now uuid path r result s
      ≡ ok s'
    → ((parties result ≡ none) × (s' ≡ s))
      ⊎ ((p : String × String) × (parties result ≡ some p)
          × IsCharged resolve_product store
              (some (validate request attempts))
              now
              uuid
              path
              r
              p
              s
              s'
          × IsFoundAt request (to_transfer r p) 0 attempts)
unfolding after_settle
after_settle-IsPaid resolve_product store request attempts now uuid path r result s s' enough h =
    elim (Option-cases (parties result)) [
      | inl e ↦ inl (e, cc (rw e at h))
      | inr (p, e) ↦
          let c =
            after_settle-IsCharged resolve_product store (some (validate request attempts)) now uuid
              path r result p s s' h e in
          let found = validated-ok (validate request attempts) (to_transfer r p) c.valid in
          inr (p, e, c, (validate-ok_iff request attempts (to_transfer r p) enough).0 found)
    ]
