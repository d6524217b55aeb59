-- ===== src/Authorization/Budget.antt =====
-- `AgentBudgetGuard` of packages/sdk/src/agent-budget.ts: the guard over a store, which reserves what passes the
-- checks.
use meterkit.Prelude.{
  ℕ, zero, suc, and_then, ◌+◌, String, ◌≡◌, Bool, Option, some, Result, ok, err, ◌>>=◌, ◌>>◌,
  pos_part,
}
use Prim.Native.Nat.{min}
use Prim.Native.String
use meterkit.Platform.{Runtime}
use meterkit.Spend.{
  ReservationInput, Reservation, Ledger, SpendError, reserve_allowance_spend,
  consume_allowance_spend, release_allowance_spend,
}
use meterkit.Authorization.{View, parse_view}
use meterkit.Authorization.Checks.{BudgetRequest, Code, check_budget}

-- `AgentBudgetStore`, over the states `S` and the errors `E` of the store.
pub record BudgetStore (S E : Type 0) : Type 0 where
  pub reserve_allowance_spend : ReservationInput → S → Result E (S × Reservation)
  pub consume_allowance_spend : String → S → Result E (S × Bool)
  pub release_allowance_spend : String → S → Result E (S × Bool)

-- `PostgresStore` is one.
unfoldable pub ledger_store : ℕ → BudgetStore Ledger SpendError
ledger_store now = record {
  reserve_allowance_spend = reserve_allowance_spend now;
  consume_allowance_spend = consume_allowance_spend;
  release_allowance_spend = release_allowance_spend;
}

-- The first `n` characters of a text.
unfoldable pub prefix : ℕ → String → String
prefix zero s = String.[]
prefix (suc n) String.[] = String.[]
prefix (suc n) (String.◌∷◌ c s) = String.◌∷◌ c (prefix n s)

-- sha256:…, the first 16 hexadecimal digits.
unfoldable pub fingerprint : Runtime → String → String
unfolding prefix
fingerprint rt s = String.◌++◌ "sha256:" (prefix 16 (rt.sha256_hex s))

pub record BudgetReservation : Type 0 where
  pub reservation_id : String
  pub authorization_fingerprint : String
  pub payment_fingerprint : String

pub data BudgetError (E : Type 0) : Type 0 where
  denied : Code → BudgetError E
  store_failed : E → BudgetError E

-- The fields of the class. The constructor parses the authorization.
pub record Guard (S E : Type 0) : Type 0 where
  pub authorization : View
  pub delegate : String
  pub store : BudgetStore S E

unfoldable pub make_guard :
    {S E : Type 0} → Runtime → View → String → BudgetStore S E → Option (Guard S E)
make_guard rt v delegate store =
    and_then (parse_view rt v)
      (λ parsed. some (record { authorization = parsed; delegate = delegate; store = store }))

abbrev pub from_check : {E A : Type 0} → Result Code A → Result (BudgetError E) A
from_check (ok a) = ok a
from_check (err c) = err (denied c)

abbrev pub from_store : {E A : Type 0} → Result E A → Result (BudgetError E) A
from_store (ok a) = ok a
from_store (err e) = err (store_failed e)

pub from_check-ok :
    {E A : Type 0} (m : Result Code A) {a : A} → from_check {E = E} m ≡ ok a → m ≡ ok a
from_check-ok (ok a) h = cc
from_check-ok (err c) h = cc

pub from_store-ok : {E A : Type 0} (m : Result E A) {a : A} → from_store m ≡ ok a → m ≡ ok a
from_store-ok (ok a) h = cc
from_store-ok (err e) h = cc

-- What `reserve` asks of the store.
unfoldable pub store_request : Runtime → View → ℕ → String → BudgetRequest → ReservationInput
store_request rt v now uuid i = record {
  reservation_id = uuid;
  allowance_address = v.authorization_address;
  payment_key = fingerprint rt i.payment_json;
  amount_atomic = pos_part i.amount_atomic;
  expires_at = min v.expires_at (now + 300_000);
}

module _ {S E : Type 0} (rt : Runtime) (g : Guard S E) where
  -- `uuid` is what `randomUUID` returns.
  unfoldable pub reserve :
      ℕ → String → BudgetRequest → S → Result (BudgetError E) (S × BudgetReservation)
  unfolding store_request
  reserve now uuid i s = do
    from_check (check_budget rt g.authorization g.delegate now i)
    placed ←
        from_store (g.store.reserve_allowance_spend (store_request rt g.authorization now uuid i) s)
    ok (
      placed.0,
      record {
        reservation_id = uuid;
        authorization_fingerprint = fingerprint rt g.authorization.authorization_address;
        payment_fingerprint = fingerprint rt i.payment_json;
      },
    )

  unfoldable pub consume : String → S → Result E (S × Bool)
  consume = g.store.consume_allowance_spend

  unfoldable pub release : String → S → Result E (S × Bool)
  release = g.store.release_allowance_spend
