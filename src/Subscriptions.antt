-- ===== src/Subscriptions.antt =====
-- packages/subscriptions/src/index.ts: the policy of an allowance, and the instructions and transactions
-- that a wallet is asked to sign. The instruction builders of @solana/subscriptions and what is used of
-- @solana/kit are parameters. A signer is named by its address. A date is its milliseconds, none where
-- it is invalid; a time before 1970 is left out.
pub mod Instructions
pub mod Building
pub mod Guarding
mod Tests
use meterkit.Prelude.{
  ℕ, ◌+◌, ◌-◌, ◌/◌, String, Bool, true, false, not, ◌||◌, leb, ℤ, pos, leb_ℤ, Option, none, some,
  List, [], ◌∷◌, Result, ok, err, ◌>>=◌, ◌>>◌, reject_if, or_throw, and_then,
}

abbrev pub Date : Type 0
Date = Option ℕ

pub data AllowanceError : Type 0 where
  allowance_amount_invalid allowance_amount_exceeds_policy allowance_expired : AllowanceError
  allowance_duration_exceeds_policy allowance_period_invalid : AllowanceError
  allowance_start_after_expiry date_invalid delegation_account_not_derived : AllowanceError
  transfer_amount_invalid plan_amount_invalid subscription_transfer_amount_invalid : AllowanceError
  -- `BigInt` of NaN, and what the libraries throw.
  invalid_number client_failed : AllowanceError

pub record AllowancePolicy : Type 0 where
  pub max_atomic : ℤ
  pub expires_at : Date
  pub period_seconds : Option ℤ

pub record AllowanceConstraints : Type 0 where
  pub max_atomic : ℤ
  pub max_duration_seconds : ℤ
  pub min_period_seconds : ℤ

-- `DEFAULT_AGENT_ALLOWANCE_CONSTRAINTS`.
abbrev pub default_agent_allowance_constraints : AllowanceConstraints
default_agent_allowance_constraints = record {
  max_atomic = pos 100_000_000;
  max_duration_seconds = pos 7_776_000;
  min_period_seconds = pos 60;
}

-- `a > b` on `bigint`.
abbrev pub gtb_ℤ : ℤ → ℤ → Bool
gtb_ℤ a b = not (leb_ℤ a b)

-- `a <= b` on dates: false where one is invalid.
abbrev pub date_leb : Date → Date → Bool
date_leb none b = false
date_leb (some a) none = false
date_leb (some a) (some b) = leb a b

-- The seconds from now to a date that lies ahead, rounded up.
abbrev pub seconds_until : Date → ℕ → Result AllowanceError ℕ
seconds_until none now = err invalid_number
seconds_until (some at) now = ok ((at - now + 999) / 1000)

abbrev pub bad_period : AllowanceConstraints → ℕ → Option ℤ → Bool
bad_period c duration none = false
bad_period c duration (some period) =
    gtb_ℤ c.min_period_seconds period || gtb_ℤ period (pos duration)

-- `assertAllowancePolicy`.
unfoldable pub assert_allowance_policy :
    AllowancePolicy → ℕ → AllowanceConstraints → Result AllowanceError AllowancePolicy
assert_allowance_policy p now c = do
  reject_if (leb_ℤ p.max_atomic (pos 0)) allowance_amount_invalid
  reject_if (gtb_ℤ p.max_atomic c.max_atomic) allowance_amount_exceeds_policy
  reject_if (date_leb p.expires_at (some now)) allowance_expired
  duration ← seconds_until p.expires_at now
  reject_if (gtb_ℤ (pos duration) c.max_duration_seconds) allowance_duration_exceeds_policy
  reject_if (bad_period c duration p.period_seconds) allowance_period_invalid
  ok p

-- `toUnixSeconds`.
abbrev pub to_unix_seconds : Date → Result AllowanceError ℕ
to_unix_seconds none = err date_invalid
to_unix_seconds (some at) = ok (at / 1000)
