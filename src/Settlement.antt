-- ===== src/Settlement.antt =====
-- `SolanaSettlementValidator` and `ownerMintDelta` of packages/sdk/src/index.ts. What one request to the
-- RPC gives, with its HTTP status and the schema of its answer, is a parameter by the number of the
-- attempt; the pause between two attempts is left out.
pub mod Validating
pub mod Tests
use meterkit.Prelude.{
  ℕ, zero, suc, ◌+◌, String, Bool, true, false, not, ◌&&◌, Option, none, some, List, [], ◌∷◌, ◌==◌,
  sum_by, if◌then◌else◌, ℤ, pos, pos_part, neg_part, sub_ℕ, leb_ℤ, eq_ℤ, Result, ok, err, ◌>>=◌,
  ◌>>◌, reject_if,
}

-- The fields of `tokenBalanceSchema` that are read.
pub record TokenBalance : Type 0 where
  pub mint : String
  pub owner : Option String
  pub amount : ℕ

-- `meta.err` is null, or anything else, a missing field included.
pub record Meta : Type 0 where
  pub err_is_null : Bool
  pub pre_token_balances : List TokenBalance
  pub post_token_balances : List TokenBalance

pub data SettlementError : Type 0 where
  -- The request fails, its status is not ok, or the schema refuses its answer.
  rpc_failed : SettlementError
  transaction_not_found transaction_failed transfer_mismatch payer_mismatch : SettlementError

pub data Reply : Type 0 where
  failing absent : Reply
  found : Meta → Reply

pub record Transfer : Type 0 where
  pub signature : String
  pub payer : String
  pub pay_to : String
  pub mint : String
  pub amount_atomic : ℕ

abbrev pub is_owner : Option String → String → Bool
is_owner none owner = false
is_owner (some o) owner = o == owner

-- `sum` of `ownerMintDelta`.
abbrev pub owned : String → String → List TokenBalance → ℕ
owned owner mint = sum_by (λ b. if is_owner b.owner owner && b.mint == mint then b.amount else 0)

unfoldable pub owner_mint_delta : (before after : List TokenBalance) (owner mint : String) → ℤ
owner_mint_delta before after owner mint = sub_ℕ (owned owner mint after) (owned owner mint before)

-- `-n`.
abbrev negate : ℕ → ℤ
negate n = sub_ℕ 0 n

-- The checks on a transaction that was found.
unfoldable pub judge : Transfer → Meta → Result SettlementError (Unit {0})
unfolding owner_mint_delta
judge i m = do
  reject_if (not m.err_is_null) transaction_failed
  reject_if
      (not (
        eq_ℤ (owner_mint_delta m.pre_token_balances m.post_token_balances i.pay_to i.mint)
          (pos i.amount_atomic)))
      transfer_mismatch
  reject_if
      (not (
        leb_ℤ (owner_mint_delta m.pre_token_balances m.post_token_balances i.payer i.mint)
          (negate i.amount_atomic)))
      payer_mismatch

-- Whether another attempt follows.
abbrev pub retry : ℕ → Result SettlementError (Unit {0}) → Result SettlementError (Unit {0})
retry zero later = err transaction_not_found
retry (suc left) later = later

-- One turn of the loop, with the number of attempts that are left after it.
abbrev turn :
    Transfer → Reply → ℕ → Result SettlementError (Unit {0}) → Result SettlementError (Unit {0})
turn i failing left later = err rpc_failed
turn i absent left later = retry left later
turn i (found m) left later = judge i m

module _ (request : ℕ → String → Reply) where
  -- The loop from `attempt`, with `left` attempts to go. It returns without a check where none is.
  unfoldable pub validate_from : Transfer → (attempt left : ℕ) → Result SettlementError (Unit {0})
  unfolding judge
  validate_from i attempt zero = ok tt
  validate_from i attempt (suc left) =
      turn i (request attempt i.signature) left (validate_from i (attempt + 1) left)

  -- `validate`.
  unfoldable pub validate : (attempts : ℕ) → Transfer → Result SettlementError (Unit {0})
  unfolding validate_from
  validate attempts i = validate_from i 0 attempts
