-- ===== src/Middleware.antt =====
-- `createMeterKitMiddleware` of packages/sdk/src/index.ts over any payment store. A request is cut where
-- another request may run: `prepare` is the part up to the call of `save`, `complete` is the rest. What the
-- facilitator answers, and whether `onSettled` throws, are parameters of the request.
pub mod Serving
pub mod Handling
mod Tests
use meterkit.Prelude.{
  ℕ, zero, suc, String, Bool, true, false, not, ◌&&◌, ◌||◌, ◌==◌, Option, none, some, List, [], ◌∷◌,
  ◌++◌, leb, if◌then◌else◌, Result, ok, err, ◌>>=◌, ◌>>◌, reject_if, or_throw,
}
use meterkit.Platform.{Runtime, solana_devnet, truthy, is_truthy}
use meterkit.Products.{Product}
use meterkit.Payments.{Payment, PaymentError, confirmed, parse_payment}
use meterkit.Payments.Interface.{PaymentStore, is_replayed}

-- What the facilitator answers.
pub record Settlement : Type 0 where
  pub success : Bool
  pub transaction : Option String
  pub payer : Option String
  pub network : Option String

-- `PaymentRequirements`; the constant fields are left out.
pub record PaymentRequirements : Type 0 where
  pub amount : ℕ
  pub asset : String
  pub pay_to : String
  pub url : String
  pub description : String

pub data Outcome : Type 0 where
  payment_required payment_invalid wrong_network payment_replayed malformed_payment : Outcome
  -- The handler runs, and the answer has the header PAYMENT-RESPONSE.
  next : (transaction payer : String) → Outcome

-- A request with what its surroundings answer; none where `settle` throws.
pub record Exchange : Type 0 where
  pub header : Option String
  pub uuid : String
  pub now : ℕ
  pub settle : String → PaymentRequirements → Option Settlement
  pub on_settled : Payment → Bool

unfoldable pub requirements : Product → PaymentRequirements
requirements product = record {
  amount = product.price_atomic;
  asset = product.asset_mint;
  pay_to = product.pay_to;
  url = product.resource;
  description = product.description;
}

-- `result.network && result.network !== SOLANA_DEVNET`.
abbrev pub is_foreign : Option String → Bool
is_foreign none = false
is_foreign (some n) = not (n == "") && not (n == solana_devnet)

abbrev pub or_malformed : Result PaymentError Payment → Result Outcome Payment
or_malformed (ok p) = ok p
or_malformed (err e) = err malformed_payment

-- The record that is given to the schema.
abbrev pub to_record : Product → Exchange → String → String → Payment
to_record product x transaction payer = record {
  id = x.uuid;
  product_id = product.id;
  payer = payer;
  pay_to = product.pay_to;
  mint = product.asset_mint;
  amount_atomic = product.price_atomic;
  network = solana_devnet;
  signature = transaction;
  settled_at = x.now;
  status = confirmed;
}

module _ {S : Type 0} (rt : Runtime) (product : Product) (store : PaymentStore S) where
  -- The record to save, or the answer that the request gets.
  unfoldable pub prepare : Exchange → S → Result Outcome Payment
  unfolding requirements parse_payment
  prepare x s = do
    raw ← or_throw (truthy x.header) payment_required
    reject_if (not (leb 16 (rt.units raw) && leb (rt.units raw) 20_000)) malformed_payment
    result ← or_throw (x.settle raw (requirements product)) malformed_payment
    reject_if (not result.success) payment_invalid
    transaction ← or_throw (truthy result.transaction) payment_invalid
    payer ← or_throw (truthy result.payer) payment_invalid
    reject_if (is_foreign result.network) wrong_network
    reject_if (store.has transaction s) payment_replayed
    or_malformed (parse_payment (to_record product x transaction payer))

  abbrev saved : Exchange → Payment → S → Result PaymentError S → S × Outcome
  saved x p s (ok s') = (s', if x.on_settled p then next p.signature p.payer else malformed_payment)
  saved x p s (err e) = (s, if is_replayed e then payment_replayed else malformed_payment)

  -- From `save` on.
  unfoldable pub complete : Exchange → Payment → S → S × Outcome
  complete x p s = saved x p s (store.save p s)

  abbrev pub prepared : Exchange → S → Result Outcome Payment → S × Outcome
  prepared x s (ok p) = complete x p s
  prepared x s (err answer) = (s, answer)

  -- The whole request, with no other in between.
  unfoldable pub handle : Exchange → S → S × Outcome
  handle x s = prepared x s (prepare x s)

-- The server: its store, the requests that wait for `save`, and the signatures whose request has reached
-- the handler.
pub record Server (S : Type 0) : Type 0 where
  pub store : S
  pub pending : List (Exchange × Payment)
  pub served : List String

pub data Event : Type 0 where
  arrives : Exchange → Event
  -- The pending request of that position goes on.
  resumes : ℕ → Event

abbrev pub nth {ℓ} : {A : Type ℓ} → ℕ → List A → Option A
nth n [] = none
nth zero (x ∷ xs) = some x
nth (suc n) (x ∷ xs) = nth n xs

abbrev pub remove_nth {ℓ} : {A : Type ℓ} → ℕ → List A → List A
remove_nth n [] = []
remove_nth zero (x ∷ xs) = xs
remove_nth (suc n) (x ∷ xs) = x ∷ remove_nth n xs

abbrev pub serve : Outcome → List String → List String
serve (next transaction payer) served = transaction ∷ served
serve _ served = served

module _ {S : Type 0} (rt : Runtime) (product : Product) (store : PaymentStore S) where
  abbrev pub arrived : Server S → Exchange → Result Outcome Payment → Server S
  arrived v x (ok p) = record v { pending = v.pending ++ ((x, p) ∷ []) }
  arrived v x (err answer) = v

  abbrev pub resumed : Server S → ℕ → Option (Exchange × Payment) → Server S
  resumed v n none = v
  resumed v n (some (x, p)) = record {
    store = (complete rt product store x p v.store).0;
    pending = remove_nth n v.pending;
    served = serve (complete rt product store x p v.store).1 v.served;
  }

  unfoldable pub step : Server S → Event → Server S
  step v (arrives x) = arrived v x (prepare rt product store x v.store)
  step v (resumes n) = resumed v n (nth n v.pending)

  unfoldable pub run : Server S → List Event → Server S
  unfolding step
  run v [] = v
  run v (e ∷ es) = run (step v e) es

-- A server that has served nothing yet.
abbrev pub start : {S : Type 0} → S → Server S
start s = record { store = s; pending = []; served = [] }
