-- ===== src/Subscriptions/Guarding.antt =====
-- What the guards of packages/subscriptions/src/index.ts let through, and what the gateway makes of it.
use meterkit.Prelude.{
  ℕ, ◌+◌, ◌-◌, ◌*◌, ◌/◌, ◌≤◌, ◌<◌, ◌≡◌, refl, ◌↔◌, true, false, ℤ, pos, negsuc, Option, none, some,
  Result, ok, arith, leb, leb_ℤ, reject_if-ok, bind-ok, reject_if, ◌>>◌, ◌>>=◌, String, sym, ◌∙◌,
  eq_iff,
}
use meterkit.Subscriptions.{
  to_unix_seconds, allowance_start_after_expiry, Date, AllowancePolicy, AllowanceError,
  default_agent_allowance_constraints, assert_allowance_policy, gtb_ℤ, date_leb, bad_period,
  allowance_period_invalid, allowance_amount_invalid, allowance_amount_exceeds_policy,
  allowance_expired, allowance_duration_exceeds_policy,
}
use meterkit.Subscriptions.Instructions.{
  Client, FixedInput, RecurringInput, FixedDelegation, RecurringDelegation, Lifetime, Prepared,
}
use meterkit.Subscriptions.Building.{
  build_fixed_allowance, build_recurring_allowance, prepare_fixed_allowance_transaction,
}
use meterkit.Platform.{Runtime}
use meterkit.Products.{Product}
use meterkit.Gateway.Receipt.{Rpc}
use meterkit.Gateway.Allowances.{AllowanceRequest, within_limits}

-- A period of at least a minute that is no longer than the time left, in milliseconds, rounded up.
abbrev pub HasPeriod : ℕ → Option ℤ → Type 0
HasPeriod left none = Unit
HasPeriod left (some period) =
    (seconds : ℕ) × (period ≡ pos seconds) × (60 ≤ seconds) × (seconds * 1000 < left + 1000)

pub record IsWithin (now : ℕ) (p : AllowancePolicy) : Type 0 where
  pub most : ℕ
  pub at : ℕ
  pub amount : p.max_atomic ≡ pos most
  pub positive : 1 ≤ most
  pub small : most ≤ 100_000_000
  pub expiry : p.expires_at ≡ some at
  pub ahead : now < at
  pub near : at ≤ now + 90 * 86_400_000
  pub period : HasPeriod (at - now) p.period_seconds

bad_period-HasPeriod :
    (left : ℕ) (s : Option ℤ)
    → bad_period default_agent_allowance_constraints ((left + 999) / 1000) s ≡ false
    → HasPeriod left s
bad_period-HasPeriod left none h = tt
bad_period-HasPeriod left (some (pos n)) h = (n, refl, ground arith, ground arith)
bad_period-HasPeriod left (some (negsuc n)) h = ground arith

HasPeriod-bad_period :
    (left : ℕ) (s : Option ℤ)
    → HasPeriod left s
    → bad_period default_agent_allowance_constraints ((left + 999) / 1000) s ≡ false
HasPeriod-bad_period left none h = refl
HasPeriod-bad_period left (some (pos n)) (m, e, lo, hi) = let same : n ≡ m = cc in ground arith
HasPeriod-bad_period left (some (negsuc n)) (m, e, lo, hi) = cc

assert-ok :
    (m : ℤ) (e : Date) (s : Option ℤ) (now : ℕ) {q : AllowancePolicy}
    → assert_allowance_policy
        (record { max_atomic = m; expires_at = e; period_seconds = s })
        now
        default_agent_allowance_constraints
      ≡ ok q
    → IsWithin now (record { max_atomic = m; expires_at = e; period_seconds = s })
unfolding assert_allowance_policy
assert-ok (negsuc n) e s now h =
    let (positive, _) = reject_if-ok (leb_ℤ (negsuc n) (pos 0)) allowance_amount_invalid h in
    let none_passes : true ≡ false = ground arith in cc
assert-ok (pos n) none s now h = let none_passes : true ≡ false = ground arith in cc
assert-ok (pos n) (some at) s now h =
    let (positive, h₁) = reject_if-ok (leb_ℤ (pos n) (pos 0)) allowance_amount_invalid h in
    let (small, h₂) =
      reject_if-ok (gtb_ℤ (pos n) (pos 100_000_000)) allowance_amount_exceeds_policy h₁ in
    let (ahead, h₃) = reject_if-ok (leb at now) allowance_expired h₂ in
    let (near, h₄) =
      reject_if-ok (gtb_ℤ (pos ((at - now + 999) / 1000)) (pos 7_776_000))
        allowance_duration_exceeds_policy h₃ in
    let (period, _) =
      reject_if-ok (bad_period default_agent_allowance_constraints ((at - now + 999) / 1000) s)
        allowance_period_invalid h₄ in
    record {
      most = n;
      at = at;
      amount = refl;
      positive = ground arith;
      small = ground arith;
      expiry = refl;
      ahead = ground arith;
      near = ground arith;
      period = bad_period-HasPeriod (at - now) s period;
    }

granted :
    (n at now : ℕ) (s : Option ℤ)
    → 1 ≤ n
    → n ≤ 100_000_000
    → now < at
    → at ≤ now + 90 * 86_400_000
    → bad_period default_agent_allowance_constraints ((at - now + 999) / 1000) s ≡ false
    → assert_allowance_policy
        (record { max_atomic = pos n; expires_at = some at; period_seconds = s })
        now
        default_agent_allowance_constraints
      ≡ ok (record { max_atomic = pos n; expires_at = some at; period_seconds = s })
unfolding assert_allowance_policy
granted n at now s h₁ h₂ h₃ h₄ h₅ = rw h₅ (ground arith)

ok-assert :
    (now : ℕ) (p : AllowancePolicy)
    → IsWithin now p
    → assert_allowance_policy p now default_agent_allowance_constraints ≡ ok p
ok-assert now p w =
    rw (w.amount, w.expiry)
      (granted w.most w.at now p.period_seconds w.positive w.small w.ahead w.near
        (HasPeriod-bad_period (w.at - now) p.period_seconds w.period))

abbrev pub fixed_policy : FixedInput → AllowancePolicy
fixed_policy i = record {
  max_atomic = i.max_atomic;
  expires_at = i.expires_at;
  period_seconds = none;
}

abbrev pub recurring_policy : RecurringInput → AllowancePolicy
recurring_policy i = record {
  max_atomic = i.max_per_period_atomic;
  expires_at = i.expires_at;
  period_seconds = some i.period_seconds;
}

-- What the wallet is asked to sign.
abbrev pub fixed_delegation : FixedInput → ℕ → FixedDelegation
fixed_delegation i expiry = record {
  delegator = i.owner;
  payer = i.payer;
  token_mint = i.mint;
  delegatee = i.delegate;
  amount = i.max_atomic;
  expiry_ts = expiry;
  nonce = i.nonce;
  authority_init_id = i.authority_init_id;
}

abbrev pub recurring_delegation : RecurringInput → ℕ → ℕ → RecurringDelegation
recurring_delegation i start expiry = record {
  delegator = i.owner;
  payer = i.payer;
  token_mint = i.mint;
  delegatee = i.delegate;
  amount_per_period = i.max_per_period_atomic;
  period_length_s = i.period_seconds;
  start_ts = start;
  expiry_ts = expiry;
  nonce = i.nonce;
  authority_init_id = i.authority_init_id;
}

module _ {I : Type 0} (client : Client I) (now : ℕ) (x : I) where
  build_fixed-ok :
      (i : FixedInput)
      → build_fixed_allowance client now i ≡ ok x
      → (w : IsWithin now (fixed_policy i)) × (client.create_fixed_delegation
            (fixed_delegation i (w.at / 1000))
          ≡ ok x)
  unfolding build_fixed_allowance
  build_fixed-ok i h =
      let (q, granted_, h₁) =
        bind-ok (assert_allowance_policy (fixed_policy i) now default_agent_allowance_constraints)
          h in
      let w = assert-ok i.max_atomic i.expires_at none now granted_ in (w, rw w.expiry at h₁)

  -- The terms of a recurring allowance are within the policy, it begins before it ends, and the client
  -- library makes `x` of them.
  abbrev pub IsAgreed : RecurringInput → Type 0
  IsAgreed i =
      (w : IsWithin now (recurring_policy i)) × (start : ℕ) × (i.starts_at ≡ some start)
      × (start < w.at)
      × (client.create_recurring_delegation (recurring_delegation i (start / 1000) (w.at / 1000))
          ≡ ok x)

  begun :
      (d : Date) (at : ℕ) (k : ℕ → Result AllowanceError I)
      → (reject_if (date_leb (some at) d) allowance_start_after_expiry >> (to_unix_seconds d >>= k))
        ≡ ok x
      → (start : ℕ) × (d ≡ some start) × (start < at) × (k (start / 1000) ≡ ok x)
  begun none at k h = let none_passes : true ≡ false = ground arith in cc
  begun (some start) at k h =
      let (before, h₁) = reject_if-ok (leb at start) allowance_start_after_expiry h in
      (start, refl, ground arith, h₁)

  recurring-ok : (i : RecurringInput) → build_recurring_allowance client now i ≡ ok x → IsAgreed i
  unfolding build_recurring_allowance
  recurring-ok i h =
      let (q, granted_, h₁) =
        bind-ok
          (assert_allowance_policy (recurring_policy i) now default_agent_allowance_constraints)
          h in
      let w = assert-ok i.max_per_period_atomic i.expires_at (some i.period_seconds) now granted_ in
      let (start, e, before, h₂) =
        begun i.starts_at w.at
          (λ start. client.create_recurring_delegation (recurring_delegation i start (w.at / 1000)))
          (rw w.expiry at h₁) in
      (w, start, e, before, h₂)

  ok-recurring : (i : RecurringInput) → IsAgreed i → build_recurring_allowance client now i ≡ ok x
  unfolding build_recurring_allowance
  ok-recurring i (w, start, e, before, h) =
      let late : leb w.at start ≡ false = ground arith in
      rw (ok-assert now (recurring_policy i) w, e) (rw (w.expiry, late) h)

  -- `buildRecurringAllowance` builds an instruction exactly when the amount is positive and at most
  -- 100000000, the expiry lies ahead within 90 days, the period has 60 seconds or more and is no longer
  -- than the time left, rounded up, the start is a date before the expiry, and the client library
  -- accepts those very terms, with both dates in whole seconds.
  pub build_recurring_iff :
      (i : RecurringInput) → (build_recurring_allowance client now i ≡ ok x) ↔ IsAgreed i
  build_recurring_iff i = (recurring-ok i, ok-recurring i)

prepared-IsWithin :
    {I : Type 0} (client : Client I) (now : ℕ) (i : FixedInput) (lifetime : Lifetime) (p : Prepared)
    → prepare_fixed_allowance_transaction client now i lifetime ≡ ok p
    → IsWithin now (fixed_policy i)
unfolding prepare_fixed_allowance_transaction
prepared-IsWithin client now i lifetime p h =
    let (owner, _, h₁) = bind-ok (client.address i.owner) h in
    let (mint, _, h₂) = bind-ok (client.address i.mint) h₁ in
    let (delegate, _, h₃) = bind-ok (client.address i.delegate) h₂ in
    let (x, built, _) = bind-ok (build_fixed_allowance client now _) h₃ in
    (build_fixed-ok client now x _ built).0

-- An allowance whose transaction was prepared in the browser is within the limits of the gateway: when it is
-- reported with the same amount and the same expiry, for the token of the product, not before it was
-- prepared and before it expires, the test of POST /v1/allowances lets it pass.
pub prepare-within_limits :
    {I : Type 0} (client : Client I) (rt : Runtime) (product : Product)
    (parse_date : String → Option ℕ) (rpc : Rpc) (now later : ℕ) (i : FixedInput)
    (lifetime : Lifetime) (p : Prepared) (q : AllowanceRequest)
    → prepare_fixed_allowance_transaction client now i lifetime ≡ ok p
    → q.mint ≡ product.asset_mint
    → i.max_atomic ≡ pos q.max_atomic
    → i.expires_at ≡ some q.expires_at
    → now ≤ later
    → later < q.expires_at
    → within_limits rt product parse_date rpc later q ≡ some q
unfolding within_limits
prepare-within_limits client rt product parse_date rpc now later i lifetime p q h m a e le lt =
    let w = prepared-IsWithin client now i lifetime p h in
    let amount : pos w.most ≡ pos q.max_atomic = sym w.amount ∙ a in
    let expiry : some w.at ≡ some q.expires_at = sym w.expiry ∙ e in
    let same_amount : w.most ≡ q.max_atomic = cc in
    let same_expiry : w.at ≡ q.expires_at = cc in
    let positive : 1 ≤ q.max_atomic = rw same_amount at (w.positive) in
    let small : q.max_atomic ≤ 100_000_000 = rw same_amount at (w.small) in
    let near : q.expires_at ≤ now + 90 * 86_400_000 = rw same_expiry at (w.near) in
    ground (arith, (eq_iff q.mint product.asset_mint).1 m, positive, small, near)
