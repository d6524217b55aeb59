-- ===== src/Subscriptions/Instructions.antt =====
-- packages/subscriptions/src/index.ts: what the builders take, and the arguments of the instructions that
-- they hand to the client library.
use meterkit.Prelude.{ℕ, String, ℤ, Option, List, Result}
use meterkit.Subscriptions.{Date, AllowanceError}

-- The arguments of the instructions.
pub record FixedDelegation : Type 0 where
  pub delegator : String
  pub payer : Option String
  pub token_mint : String
  pub delegatee : String
  pub amount : ℤ
  pub expiry_ts : ℕ
  pub nonce : ℤ
  pub authority_init_id : ℤ

pub record RecurringDelegation : Type 0 where
  pub delegator : String
  pub payer : Option String
  pub token_mint : String
  pub delegatee : String
  pub amount_per_period : ℤ
  pub period_length_s : ℤ
  pub start_ts : ℕ
  pub expiry_ts : ℕ
  pub nonce : ℤ
  pub authority_init_id : ℤ

pub record FixedTransfer : Type 0 where
  pub delegation_account : String
  pub owner : String
  pub owner_ata : String
  pub receiver_ata : String
  pub mint : String
  pub token_program : String
  pub delegate : String
  pub amount_atomic : ℤ

pub record SubscriptionTransfer : Type 0 where
  pub caller : String
  pub subscriber : String
  pub plan : String
  pub subscription : String
  pub receiver_ata : String
  pub mint : String
  pub token_program : String
  pub amount_atomic : ℤ

pub record Plan : Type 0 where
  pub owner : String
  pub mint : String
  pub amount : ℤ
  pub destinations : List String
  pub pullers : List String
  pub period_hours : ℕ
  pub end_ts : ℕ
  pub plan_id : ℤ
  pub metadata_uri : String

-- @solana/subscriptions, and what compiling a transaction uses of @solana/kit.
pub record Client (I : Type 0) : Type 0 where
  pub create_fixed_delegation : FixedDelegation → Result AllowanceError I
  pub create_recurring_delegation : RecurringDelegation → Result AllowanceError I
  pub transfer_fixed : FixedTransfer → Result AllowanceError I
  pub transfer_subscription : SubscriptionTransfer → Result AllowanceError I
  pub create_plan : Plan → Result AllowanceError I
  pub address : String → Result AllowanceError String
  pub blockhash : String → Result AllowanceError String
  -- The addresses of the accounts of an instruction.
  pub accounts : I → List String
  -- The bytes of the unsigned transaction of a fee payer with one instruction, a blockhash and a height.
  pub encode : String → I → String → ℤ → Result AllowanceError String

pub record FixedInput : Type 0 where
  pub owner : String
  pub payer : Option String
  pub mint : String
  pub delegate : String
  pub max_atomic : ℤ
  pub expires_at : Date
  pub nonce : ℤ
  pub authority_init_id : ℤ

pub record RecurringInput : Type 0 where
  pub owner : String
  pub payer : Option String
  pub mint : String
  pub delegate : String
  pub max_per_period_atomic : ℤ
  pub period_seconds : ℤ
  pub starts_at : Date
  pub expires_at : Date
  pub nonce : ℤ
  pub authority_init_id : ℤ

pub record PlanInput : Type 0 where
  pub merchant : String
  pub mint : String
  pub amount_atomic : ℤ
  pub destination : String
  pub plan_id : ℤ
  pub metadata_uri : String
  pub ends_at : Option Date
  pub pullers : Option (List String)

pub record Lifetime : Type 0 where
  pub recent_blockhash : String
  pub last_valid_block_height : ℤ

pub record Prepared : Type 0 where
  pub transaction : String
  pub delegation_account : String
