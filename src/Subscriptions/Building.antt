-- ===== src/Subscriptions/Building.antt =====
-- packages/subscriptions/src/index.ts: the builders. Each puts together the arguments of an instruction of
-- the client library, after the checks that the source makes itself.
use meterkit.Prelude.{
  ℕ, String, ◌==◌, pos, leb_ℤ, Option, none, some, List, [], ◌∷◌, Result, ok, ◌>>=◌, ◌>>◌,
  reject_if, or_throw, if◌then◌else◌,
}
use meterkit.Subscriptions.{
  Date, AllowanceError, default_agent_allowance_constraints, date_leb, assert_allowance_policy,
  to_unix_seconds, allowance_start_after_expiry, delegation_account_not_derived,
  transfer_amount_invalid, plan_amount_invalid, subscription_transfer_amount_invalid,
}
use meterkit.Subscriptions.Instructions.{
  FixedTransfer, SubscriptionTransfer, Client, FixedInput, RecurringInput, PlanInput, Lifetime,
  Prepared,
}

-- `THIRTY_DAY_PERIOD_HOURS`.
abbrev pub thirty_day_period_hours : ℕ
thirty_day_period_hours = 720

-- `accounts?.[2]?.address`; an empty address counts as none.
abbrev pub third : List String → Option String
third (a ∷ b ∷ c ∷ cs) = if c == "" then none else some c
third _ = none

abbrev pub or_none : Option (List String) → List String
or_none none = []
or_none (some xs) = xs

-- `endsAt ? toUnixSeconds(endsAt) : 0n`.
abbrev pub end_seconds : Option Date → Result AllowanceError ℕ
end_seconds none = ok 0
end_seconds (some d) = to_unix_seconds d

module _ {I : Type 0} (client : Client I) where
  -- `buildFixedAllowance`.
  unfoldable pub build_fixed_allowance : ℕ → FixedInput → Result AllowanceError I
  build_fixed_allowance now i = do
    _ ←
        assert_allowance_policy
          (record { max_atomic = i.max_atomic; expires_at = i.expires_at; period_seconds = none })
          now default_agent_allowance_constraints
    expiry ← to_unix_seconds i.expires_at
    client.create_fixed_delegation (record {
      delegator = i.owner;
      payer = i.payer;
      token_mint = i.mint;
      delegatee = i.delegate;
      amount = i.max_atomic;
      expiry_ts = expiry;
      nonce = i.nonce;
      authority_init_id = i.authority_init_id;
    })

  -- `buildRecurringAllowance`.
  unfoldable pub build_recurring_allowance : ℕ → RecurringInput → Result AllowanceError I
  build_recurring_allowance now i = do
    _ ←
        assert_allowance_policy
          (record {
            max_atomic = i.max_per_period_atomic;
            expires_at = i.expires_at;
            period_seconds = some i.period_seconds;
          })
          now default_agent_allowance_constraints
    reject_if (date_leb i.expires_at i.starts_at) allowance_start_after_expiry
    start ← to_unix_seconds i.starts_at
    expiry ← to_unix_seconds i.expires_at
    client.create_recurring_delegation (record {
      delegator = i.owner;
      payer = i.payer;
      token_mint = i.mint;
      delegatee = i.delegate;
      amount_per_period = i.max_per_period_atomic;
      period_length_s = i.period_seconds;
      start_ts = start;
      expiry_ts = expiry;
      nonce = i.nonce;
      authority_init_id = i.authority_init_id;
    })

  -- `buildTransferFixedAllowance`.
  unfoldable pub build_transfer_fixed_allowance : FixedTransfer → Result AllowanceError I
  build_transfer_fixed_allowance t = do
    reject_if (leb_ℤ t.amount_atomic (pos 0)) transfer_amount_invalid
    client.transfer_fixed t

  -- `buildTransferSubscription`.
  unfoldable pub build_transfer_subscription : SubscriptionTransfer → Result AllowanceError I
  build_transfer_subscription t = do
    reject_if (leb_ℤ t.amount_atomic (pos 0)) subscription_transfer_amount_invalid
    client.transfer_subscription t

  -- `buildMonthlyPlan`.
  unfoldable pub build_monthly_plan : PlanInput → Result AllowanceError I
  build_monthly_plan i = do
    reject_if (leb_ℤ i.amount_atomic (pos 0)) plan_amount_invalid
    ends ← end_seconds i.ends_at
    client.create_plan (record {
      owner = i.merchant;
      mint = i.mint;
      amount = i.amount_atomic;
      destinations = i.destination ∷ [];
      pullers = or_none i.pullers;
      period_hours = thirty_day_period_hours;
      end_ts = ends;
      plan_id = i.plan_id;
      metadata_uri = i.metadata_uri;
    })

  -- `compileWalletInstruction`.
  unfoldable pub compile_wallet_instruction : String → I → Lifetime → Result AllowanceError String
  compile_wallet_instruction fee_payer instruction lifetime = do
    hash ← client.blockhash lifetime.recent_blockhash
    client.encode fee_payer instruction hash lifetime.last_valid_block_height

  -- `prepareFixedAllowanceTransaction`: the addresses of the input are plain texts, and no payer is given.
  unfoldable pub prepare_fixed_allowance_transaction :
      ℕ → FixedInput → Lifetime → Result AllowanceError Prepared
  prepare_fixed_allowance_transaction now i lifetime = do
    owner ← client.address i.owner
    mint ← client.address i.mint
    delegate ← client.address i.delegate
    instruction ←
        build_fixed_allowance now
          (record i { owner = owner; payer = none; mint = mint; delegate = delegate })
    delegation_account ←
        or_throw (third (client.accounts instruction)) delegation_account_not_derived
    transaction ← compile_wallet_instruction owner instruction lifetime
    ok (record { transaction = transaction; delegation_account = delegation_account })

  -- `buildFixedAllowanceTransaction`.
  unfoldable pub build_fixed_allowance_transaction :
      ℕ → FixedInput → Lifetime → Result AllowanceError String
  build_fixed_allowance_transaction now i lifetime = do
    prepared ← prepare_fixed_allowance_transaction now i lifetime
    ok prepared.transaction

  -- `buildRecurringAllowanceTransaction`.
  unfoldable pub build_recurring_allowance_transaction :
      ℕ → RecurringInput → Lifetime → Result AllowanceError String
  build_recurring_allowance_transaction now i lifetime = do
    owner ← client.address i.owner
    mint ← client.address i.mint
    delegate ← client.address i.delegate
    instruction ←
        build_recurring_allowance now
          (record i { owner = owner; payer = none; mint = mint; delegate = delegate })
    compile_wallet_instruction owner instruction lifetime

  -- `buildMonthlyPlanTransaction`: no end and no pullers are given.
  unfoldable pub build_monthly_plan_transaction :
      PlanInput → Lifetime → Result AllowanceError String
  build_monthly_plan_transaction i lifetime = do
    merchant ← client.address i.merchant
    mint ← client.address i.mint
    destination ← client.address i.destination
    instruction ← build_monthly_plan (record i {
      merchant = merchant;
      mint = mint;
      destination = destination;
      ends_at = none;
      pullers = none;
    })
    compile_wallet_instruction merchant instruction lifetime
