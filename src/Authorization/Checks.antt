-- ===== src/Authorization/Checks.antt =====
-- The checks of `AgentBudgetGuard.reserve` of packages/sdk/src/agent-budget.ts against the finalized authorization.
use meterkit.Prelude.{
  ℕ, ◌+◌, ◌≤◌, ◌<◌, String, ◌≡◌, Bool, true, false, not, ◌&&◌, ◌||◌, Option, none, some, ◌==◌,
  ◌=/=◌, ltb, leb, any, Result, ok, ◌>>◌, reject_if, arith, ℤ, pos, leb_ℤ, pos_part, bind-ok,
  reject_if-ok, not-false, eq_iff,
}
use meterkit.Platform.{Runtime, normalize_resource}
use meterkit.Spend.{Status, Commitment, finalized, unknown, is_active}
use meterkit.Authorization.{View}

-- The codes that the two guards of an authorization share, and those of `reserve`.
pub data Code : Type 0 where
  finality_required owner_mismatch delegate_mismatch network_mismatch asset_mismatch : Code
  recipient_mismatch resource_out_of_scope authorization_expired authorization_not_started : Code
  amount_invalid per_request_limit_exceeded aggregate_limit_exceeded : Code
  authorization_revoked authorization_failed : Code
  -- `AUTHORIZATION_${status.toUpperCase()}`
  authorization_status : Status → Code

-- The argument of `reserve`. The payload comes as the text that `stableJson` makes of it.
pub record BudgetRequest : Type 0 where
  pub payer : String
  pub network : String
  pub asset_mint : String
  pub recipient : String
  pub resource : String
  pub amount_atomic : ℤ
  pub payment_json : String

abbrev pub is_finalized : Commitment → Bool
is_finalized finalized = true
is_finalized _ = false

abbrev pub is_unknown : Status → Bool
is_unknown unknown = true
is_unknown _ = false

-- A scope that is set and is not the recipient; the empty text is no scope.
unfoldable pub scope_excludes : Option String → String → Bool
scope_excludes none recipient = false
scope_excludes (some scope) recipient = not (scope == "") && scope =/= recipient

-- The six comparisons of the request with the authorization.
unfoldable pub check_scope :
    Runtime
    → View
    → (owner delegate network asset_mint recipient resource : String) → Result Code (Unit {0})
unfolding scope_excludes
check_scope rt v owner delegate network asset_mint recipient resource = do
  reject_if (v.owner =/= owner) owner_mismatch
  reject_if (v.delegate =/= delegate) delegate_mismatch
  reject_if (v.network =/= network) network_mismatch
  reject_if (v.asset_mint =/= asset_mint) asset_mismatch
  reject_if (scope_excludes v.recipient_scope recipient) recipient_mismatch
  reject_if (not (any (λ s. s == normalize_resource rt resource) v.resource_scopes))
      resource_out_of_scope

-- The window of validity.
unfoldable pub check_window : View → ℕ → Result Code (Unit {0})
check_window v now = do
  reject_if (leb v.expires_at now) authorization_expired
  reject_if (ltb now v.starts_at) authorization_not_started

unfoldable pub check_amount : View → ℤ → Result Code (Unit {0})
check_amount v amount = do
  reject_if (leb_ℤ amount (pos 0)) amount_invalid
  reject_if (not (leb_ℤ amount (pos v.per_request_limit_atomic))) per_request_limit_exceeded
  reject_if (ltb v.aggregate_limit_atomic (v.spent_atomic + pos_part amount))
      aggregate_limit_exceeded

-- The checks of `reserve`, in their order.
unfoldable pub check_budget : Runtime → View → String → ℕ → BudgetRequest → Result Code (Unit {0})
check_budget rt v delegate now i = do
  reject_if (not (is_finalized v.observed_commitment) || is_unknown v.status) finality_required
  reject_if (not (is_active v.status)) (authorization_status v.status)
  check_scope rt v i.payer delegate i.network i.asset_mint i.recipient i.resource
  check_window v now
  check_amount v i.amount_atomic

-- What a request that passed satisfies.
pub record IsPermitted (rt : Runtime) (v : View) (delegate : String) (now : ℕ) (i : BudgetRequest)
    : Type 0 where
  pub finalized : is_finalized v.observed_commitment ≡ true
  pub live : is_active v.status ≡ true
  pub owner : v.owner ≡ i.payer
  pub delegated : v.delegate ≡ delegate
  pub network : v.network ≡ i.network
  pub asset : v.asset_mint ≡ i.asset_mint
  pub recipient : scope_excludes v.recipient_scope i.recipient ≡ false
  pub resource : any (λ s. s == normalize_resource rt i.resource) v.resource_scopes ≡ true
  pub unexpired : now < v.expires_at
  pub started : v.starts_at ≤ now
  pub positive : 0 < pos_part i.amount_atomic
  pub within_request : pos_part i.amount_atomic ≤ v.per_request_limit_atomic
  pub within_aggregate : v.spent_atomic + pos_part i.amount_atomic ≤ v.aggregate_limit_atomic

check_scope-ok :
    (rt : Runtime) (v : View) (delegate : String) (i : BudgetRequest) {u : Unit {0}}
    → check_scope rt v i.payer delegate i.network i.asset_mint i.recipient i.resource ≡ ok u
    → (v.owner ≡ i.payer)
      × (v.delegate ≡ delegate)
      × (v.network ≡ i.network)
      × (v.asset_mint ≡ i.asset_mint)
      × (scope_excludes v.recipient_scope i.recipient ≡ false)
      × (any (λ s. s == normalize_resource rt i.resource) v.resource_scopes ≡ true)
unfolding check_scope
check_scope-ok rt v delegate i h = ground (
  arith,
  eq_iff v.owner i.payer,
  eq_iff v.delegate delegate,
  eq_iff v.network i.network,
  eq_iff v.asset_mint i.asset_mint,
)

check_rest-ok :
    (v : View) (now : ℕ) (amount : ℤ) {u : Unit {0}}
    → (check_window v now >> check_amount v amount) ≡ ok u
    → (now < v.expires_at)
      × (v.starts_at ≤ now)
      × (0 < pos_part amount)
      × (pos_part amount ≤ v.per_request_limit_atomic)
      × (v.spent_atomic + pos_part amount ≤ v.aggregate_limit_atomic)
unfolding check_window check_amount
check_rest-ok v now amount h = ground arith

-- A request that passes the checks is within every limit of a finalized, active authorization.
pub check_budget-IsPermitted :
    (rt : Runtime) (v : View) (delegate : String) (now : ℕ) (i : BudgetRequest) {u : Unit {0}}
    → check_budget rt v delegate now i ≡ ok u
    → IsPermitted rt v delegate now i
unfolding check_budget
check_budget-IsPermitted rt v delegate now i h =
    let (final, h₁) =
      reject_if-ok (not (is_finalized v.observed_commitment) || is_unknown v.status) _ h in
    let (live, h₂) = reject_if-ok (not (is_active v.status)) _ h₁ in
    let (_, scope, rest) =
      bind-ok (check_scope rt v i.payer delegate i.network i.asset_mint i.recipient i.resource)
        h₂ in
    let (owner, delegated, network, asset, recipient, resource) =
      check_scope-ok rt v delegate i scope in
    let (unexpired, started, positive, within_request, within_aggregate) =
      check_rest-ok v now i.amount_atomic rest in
    record {
      finalized = ground arith;
      live = not-false live;
      owner = owner;
      delegated = delegated;
      network = network;
      asset = asset;
      recipient = recipient;
      resource = resource;
      unexpired = unexpired;
      started = started;
      positive = positive;
      within_request = within_request;
      within_aggregate = within_aggregate;
    }
