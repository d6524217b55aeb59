-- ===== src/Payments/Table.antt =====
-- The methods of `PostgresStore` in packages/database/src/index.ts that work on the table `payments`.
use meterkit.Prelude.{
  ℕ, String, Bool, true, false, ◌&&◌, ◌||◌, Option, List, ◌∷◌, map, ◌==◌, ltb, any, filter, take,
  sort_by, modify_where, Result, ok, ◌>>=◌, ◌>>◌, reject_if, or_throw, not,
}
use Prim.Native.Nat.{min, max}
use meterkit.Platform.{solana_devnet}
use meterkit.Spend.{numeric_bound}
use meterkit.Payments.{
  Payment, PaymentStatus, confirmed, finalized, failed, PaymentError, payment_replayed,
  constraint_violated, parse_payment,
}

-- A row of `payments`.
pub record Row : Type 0 where
  pub payment : Payment
  pub product_uid : String

abbrev pub is_confirmed : PaymentStatus → Bool
is_confirmed confirmed = true
is_confirmed _ = false

unfoldable pub has : String → List Row → Bool
has signature rows =
    any (λ r. r.payment.network == solana_devnet && r.payment.signature == signature) rows

-- The primary key and UNIQUE (network, signature).
unfoldable pub conflicts : Payment → Row → Bool
conflicts p r =
    r.payment.id == p.id || (r.payment.network == p.network && r.payment.signature == p.signature)

-- `uid_of` is the subquery on `products`: by owner and slug. Each row starts as 'confirmed'.
unfoldable pub save :
    (String → String → Option String) → Payment → List Row → Result PaymentError (List Row)
unfolding parse_payment conflicts
save uid_of p rows = do
  value ← parse_payment p
  uid ← or_throw (uid_of value.pay_to value.product_id) constraint_violated
  reject_if (not (ltb 0 value.amount_atomic && ltb value.amount_atomic numeric_bound))
      constraint_violated
  reject_if (any (conflicts value) rows) payment_replayed
  ok (record { payment = record value { status = confirmed }; product_uid = uid } ∷ rows)

-- ORDER BY settled_at ASC LIMIT $2.
unfoldable pub list_confirmed_signatures : ℕ → List Row → List String
list_confirmed_signatures limit rows =
    map (λ r. r.payment.signature)
      (take (min (max limit 1) 256) (
        sort_by (λ r. r.payment.settled_at)
          (filter (λ r. r.payment.network == solana_devnet && is_confirmed r.payment.status) rows)))

-- UPDATE … WHERE network=$1 AND signature=$2 AND status='confirmed'.
unfoldable pub matches : String → Row → Bool
matches signature r =
    r.payment.network == solana_devnet
    && (r.payment.signature == signature && is_confirmed r.payment.status)

unfoldable pub set_status : PaymentStatus → Row → Row
set_status status r = record r { payment = record r.payment { status = status } }

unfoldable pub mark_finalized : String → List Row → List Row × Bool
unfolding matches set_status
mark_finalized signature rows =
    (modify_where (matches signature) (set_status finalized) rows, any (matches signature) rows)

unfoldable pub mark_failed : String → List Row → List Row × Bool
unfolding matches set_status
mark_failed signature rows =
    (modify_where (matches signature) (set_status failed) rows, any (matches signature) rows)
