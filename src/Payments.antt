-- ===== src/Payments.antt =====
-- Settled payments: `paymentRecordSchema` and `MemoryPaymentStore` of packages/core/src/index.ts, and
-- the table `payments` of packages/database/src/index.ts with its migrations 001 and 002. Below:
-- Payments.Settling shows that a settled payment stays as it is, and Payments.Finality models the
-- reconciler of apps/gateway/src/finality.ts.
pub mod Interface
pub mod Logging
pub mod Stores
pub mod Standalone
pub mod Memory
pub mod Table
pub mod Settling
pub mod Finality
pub mod Reconciling
mod Tests
use meterkit.Prelude.{
  ℕ, String, Bool, true, false, ◌&&◌, ◌||◌, Option, none, some, List, [], ◌∷◌, ◌++◌, map, ◌==◌,
  ◌=/=◌, ltb, leb, if◌then◌else◌, any, filter, take, sort_by, mem, modify_where, Result, ok, err,
  ◌>>=◌, ◌>>◌, reject_if, or_throw, not, ◌≡◌, arith, eq_iff,
}
use Prim.Native.Nat.{min, max}
use meterkit.Platform.{solana_devnet}
use meterkit.Spend.{numeric_bound}

pub data PaymentStatus : Type 0 where
  confirmed finalized failed : PaymentStatus

-- `PaymentRecord`.
pub record Payment : Type 0 where
  pub id : String
  pub product_id : String
  pub payer : String
  pub pay_to : String
  pub mint : String
  pub amount_atomic : ℕ
  pub network : String
  pub signature : String
  pub settled_at : ℕ
  pub status : PaymentStatus

pub data PaymentError : Type 0 where
  -- The schema refuses the record.
  invalid : PaymentError
  payment_replayed : PaymentError
  -- A NOT NULL or CHECK constraint of the table.
  constraint_violated : PaymentError

-- `paymentRecordSchema.parse`: the network is the only field with a choice of texts.
unfoldable pub parse_payment : Payment → Result PaymentError Payment
parse_payment p = do reject_if (p.network =/= solana_devnet) invalid; ok p

pub parse_payment-ok :
    (p : Payment) {v : Payment} → parse_payment p ≡ ok v → (v ≡ p) × (p.network ≡ solana_devnet)
unfolding parse_payment
parse_payment-ok p h = ground (arith, eq_iff p.network solana_devnet)
