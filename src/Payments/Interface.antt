-- ===== src/Payments/Interface.antt =====
-- `PaymentStore` of packages/core/src/index.ts: what the payment guards of packages/sdk ask of a store.
-- A store that cannot be reached is left out.
use meterkit.Prelude.{
  String, ◌≡◌, Bool, true, false, ◌||◌, Option, some, List, mem, ◌==◌, Result, ok,
}
use meterkit.Payments.{Payment, PaymentError, payment_replayed}

pub record PaymentStore (S : Type 0) : Type 0 where
  pub has : String → S → Bool
  pub save : Payment → S → Result PaymentError S
  -- An optional method.
  pub reserve_authorization : Option (String → S → S × Bool)

-- `error.message === "PAYMENT_REPLAYED"`.
abbrev pub is_replayed : PaymentError → Bool
is_replayed payment_replayed = true
is_replayed _ = false

-- What makes a store safe against replays: `save` adds a signature that `has` did not know.
pub record IsStore {S : Type 0} (store : PaymentStore S) : Type 0 where
  pub signatures : S → List String
  pub has_signature : (k : String) (s : S) → store.has k s ≡ mem k (signatures s)
  pub save_fresh :
      (p : Payment) (s s' : S) → store.save p s ≡ ok s' → mem p.signature (signatures s) ≡ false
  pub save_adds :
      (p : Payment) (s s' : S) (k : String)
      → store.save p s ≡ ok s'
      → mem k (signatures s') ≡ (k == p.signature || mem k (signatures s))

-- What makes its authorizations single: each is reserved once, apart from the payments.
pub record IsAuthorizing {S : Type 0} (store : PaymentStore S) (law : IsStore store) : Type 0 where
  pub reserved : S → List String
  pub reserve_signatures :
      (f : String → S → S × Bool) (k : String) (s : S)
      → store.reserve_authorization ≡ some f
      → law.signatures (f k s).0 ≡ law.signatures s
  pub reserve_fresh :
      (f : String → S → S × Bool) (k : String) (s : S)
      → store.reserve_authorization ≡ some f
      → (f k s).1 ≡ true
      → mem k (reserved s) ≡ false
  pub reserve_adds :
      (f : String → S → S × Bool) (k j : String) (s : S)
      → store.reserve_authorization ≡ some f
      → mem j (reserved (f k s).0) ≡ (j == k || mem j (reserved s))
  pub save_reserved : (p : Payment) (s s' : S) → store.save p s ≡ ok s' → reserved s' ≡ reserved s
