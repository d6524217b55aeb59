-- ===== src/Authorization.antt =====
-- The authorization of an agent: packages/core/src/authorization.ts (the schema), and the three
-- places that read it: packages/sdk/src/agent-budget.ts, packages/subscriptions/src/policy.ts and
-- apps/gateway/src/authorization.ts, in the modules below. Atomic amounts are decimal texts in the
-- source and numbers here; ISO times are milliseconds.
pub mod Checks
pub mod Budget
pub mod Hosted
pub mod Fixed
pub mod Spending
pub mod Guarded
pub mod Tests
use meterkit.Prelude.{
  ℕ, ◌≤◌, ◌<◌, String, ◌≡◌, ◌≢◌, Bool, true, false, not, ◌&&◌, ◌||◌, Option, none, some, List, ◌==◌,
  ltb, leb, nat_eq, length, all, if◌then◌else◌, Result, ok, err, arith, and-true, Bool-cases, inl,
  inr,
}
use meterkit.Platform.{
  Runtime, is_solana_address, is_solana_transaction, is_falsy, all_some, solana_devnet,
}
use meterkit.Spend.{Status, Commitment, exhausted, revoked}

pub data Kind : Type 0 where
  fixed recurring subscription : Kind

-- `AgentAuthorizationView`; the literal `schemaVersion` is left out.
pub record View : Type 0 where
  pub authorization_address : String
  pub program : String
  pub network : String
  pub kind : Kind
  pub owner : String
  pub delegate : String
  pub asset_mint : String
  pub recipient_scope : Option String
  pub resource_scopes : List String
  pub per_request_limit_atomic : ℕ
  pub aggregate_limit_atomic : ℕ
  pub spent_atomic : ℕ
  pub starts_at : ℕ
  pub expires_at : ℕ
  pub status : Status
  pub creation_transaction : Option String
  pub revocation_transaction : Option String
  pub observed_commitment : Commitment
  pub observed_at : ℕ

abbrev pub is_exhausted : Status → Bool
is_exhausted exhausted = true
is_exhausted _ = false

abbrev pub is_revoked : Status → Bool
is_revoked revoked = true
is_revoked _ = false

module _ (rt : Runtime) where
  -- The fields of the object, one by one.
  unfoldable pub fields_valid : View → Bool
  fields_valid v =
      is_solana_address v.authorization_address
      && is_solana_address v.program
      && v.network == solana_devnet
      && is_solana_address v.owner
      && is_solana_address v.delegate
      && is_solana_address v.asset_mint
      && all_some is_solana_address v.recipient_scope
      && all (λ s. rt.is_url s && leb (rt.units s) 2048) v.resource_scopes
      && leb (length v.resource_scopes) 64
      && ltb 0 v.per_request_limit_atomic
      && ltb 0 v.aggregate_limit_atomic
      && all_some is_solana_transaction v.creation_transaction
      && all_some is_solana_transaction v.revocation_transaction

-- The issues that `superRefine` adds.
unfoldable pub refined : View → Bool
refined v =
    not (ltb v.aggregate_limit_atomic v.spent_atomic)
    && not (ltb v.aggregate_limit_atomic v.per_request_limit_atomic)
    && not (leb v.expires_at v.starts_at)
    && not (is_exhausted v.status && not (nat_eq v.spent_atomic v.aggregate_limit_atomic))
    && not (is_revoked v.status && is_falsy v.revocation_transaction)

-- `agentAuthorizationViewSchema.parse`: the view, or none where it throws.
unfoldable pub parse_view : Runtime → View → Option View
unfolding fields_valid refined
parse_view rt v = if fields_valid rt v && refined v then some v else none

refined-IsView :
    (v : View)
    → refined v ≡ true
    → (v.spent_atomic ≤ v.aggregate_limit_atomic)
      × (v.per_request_limit_atomic ≤ v.aggregate_limit_atomic)
      × (v.starts_at < v.expires_at)
unfolding refined
refined-IsView v h = ground arith

-- The status 'revoked' without a revocation transaction is an issue.
pub parse_view-unrevoked :
    (rt : Runtime) (v : View)
    → is_revoked v.status ≡ true
    → is_falsy v.revocation_transaction ≡ true
    → parse_view rt v ≡ none
unfolding parse_view
parse_view-unrevoked rt v r f = ground (arith, refused)
  where
    refused : refined v ≡ false
    refused = ground arith

pub parse_view-IsView :
    (rt : Runtime) (v w : View)
    → parse_view rt v ≡ some w
    → (w ≡ v)
      × (v.spent_atomic ≤ v.aggregate_limit_atomic)
      × (v.per_request_limit_atomic ≤ v.aggregate_limit_atomic)
      × (v.starts_at < v.expires_at)
unfolding parse_view
parse_view-IsView rt v w h = elim (Bool-cases (fields_valid rt v && refined v)) [
  | inl e ↦
      let same : w ≡ v = cc (rw e at h) in
      let (spent, request, window) = refined-IsView v (and-true e).1 in
      (same, spent, request, window)
  | inr e ↦ cc (rw e at h)
]
