-- ===== src/Authorization/Spending.antt =====
-- `evaluateAgentSpend` of packages/subscriptions/src/policy.ts, and how it compares with the guard
-- of the SDK.
use meterkit.Prelude.{
  ℕ, ◌-◌, ◌≤◌, String, ◌≡◌, ◌↔◌, Bool, true, false, not, ◌||◌, Option, some, Result, ok, err, ◌>>◌,
  reject_if, and_then, arith, ℤ, pos, leb_ℤ, pos_part,
}
use meterkit.Platform.{Runtime}
use meterkit.Spend.{Status, pending, expired, revocation_pending, revoked, failed}
use meterkit.Authorization.{View, parse_view, is_exhausted}
use meterkit.Authorization.Checks.{
  Code, finality_required, authorization_revoked, authorization_failed, amount_invalid,
  per_request_limit_exceeded, aggregate_limit_exceeded, BudgetRequest, is_finalized, is_unknown,
  check_scope, check_window, check_amount, check_budget,
}

-- `AgentSpendRequest`; the time is an argument of its own.
pub record SpendRequest : Type 0 where
  pub owner : String
  pub delegate : String
  pub network : String
  pub asset_mint : String
  pub recipient : String
  pub resource : String
  pub amount_atomic : ℤ

pub data Decision : Type 0 where
  authorized : (remaining_atomic : ℕ) → Decision
  rejected : Code → (remaining_atomic : ℕ) → Decision

abbrev pub is_pending : Status → Bool
is_pending pending = true
is_pending _ = false

abbrev pub is_revoked_or_revoking : Status → Bool
is_revoked_or_revoking revoked = true
is_revoked_or_revoking revocation_pending = true
is_revoked_or_revoking _ = false

abbrev pub is_failed : Status → Bool
is_failed failed = true
is_failed _ = false

abbrev pub is_expired : Status → Bool
is_expired expired = true
is_expired _ = false

-- The schema has checked that `spent` is at most `aggregate`, so this is the difference.
unfoldable pub remaining : View → ℕ
remaining v = v.aggregate_limit_atomic - v.spent_atomic

module _ (rt : Runtime) where
  -- The checks of `evaluateAgentSpend`, in their order.
  unfoldable pub check_spend : View → SpendRequest → ℕ → Result Code (Unit {0})
  unfolding remaining
  check_spend v r now = do
    reject_if
        (not (is_finalized v.observed_commitment) || is_unknown v.status || is_pending v.status)
        finality_required
    reject_if (is_revoked_or_revoking v.status) authorization_revoked
    reject_if (is_failed v.status) authorization_failed
    check_scope rt v r.owner r.delegate r.network r.asset_mint r.recipient r.resource
    check_window v now
    reject_if (leb_ℤ r.amount_atomic (pos 0)) amount_invalid
    reject_if (not (leb_ℤ r.amount_atomic (pos v.per_request_limit_atomic)))
        per_request_limit_exceeded
    reject_if (not (leb_ℤ r.amount_atomic (pos (remaining v))) || is_exhausted v.status)
        aggregate_limit_exceeded

  abbrev to_decision : View → SpendRequest → Result Code (Unit {0}) → Decision
  to_decision v r (ok _) = authorized (remaining v - pos_part r.amount_atomic)
  to_decision v r (err c) = rejected c (remaining v)

  -- none: the schema threw.
  unfoldable pub evaluate_agent_spend : View → SpendRequest → ℕ → Option Decision
  unfolding check_spend
  evaluate_agent_spend raw r now =
      and_then (parse_view rt raw) (λ v. some (to_decision v r (check_spend v r now)))

-- The request of the guard, as `evaluateAgentSpend` takes it.
unfoldable pub as_spend : String → BudgetRequest → SpendRequest
as_spend delegate i = record {
  owner = i.payer;
  delegate = delegate;
  network = i.network;
  asset_mint = i.asset_mint;
  recipient = i.recipient;
  resource = i.resource;
  amount_atomic = i.amount_atomic;
}

check_amount-remaining :
    (v : View) (amount : ℤ)
    → v.spent_atomic ≤ v.aggregate_limit_atomic
    → (check_amount v amount ≡ ok tt) ↔ (
        (leb_ℤ amount (pos 0) ≡ false)
        × (leb_ℤ amount (pos v.per_request_limit_atomic) ≡ true)
        × (leb_ℤ amount (pos (remaining v)) ≡ true))
unfolding check_amount remaining
check_amount-remaining v amount h = ground arith

-- On a view whose spending is within its limit the guard of the SDK passes a request exactly when
-- `evaluateAgentSpend` does and the status is not 'expired'.
pub check_budget-check_spend :
    (rt : Runtime) (v : View) (delegate : String) (now : ℕ) (i : BudgetRequest)
    → v.spent_atomic ≤ v.aggregate_limit_atomic
    → (check_budget rt v delegate now i ≡ ok tt)
      ↔ ((check_spend rt v (as_spend delegate i) now ≡ ok tt) × (is_expired v.status ≡ false))
unfolding check_budget check_spend as_spend
check_budget-check_spend rt v delegate now i h =
    ground (arith, check_amount-remaining v i.amount_atomic h)
