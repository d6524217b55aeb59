-- ===== src/Payments/Memory.antt =====
-- `MemoryPaymentStore` of packages/core/src/index.ts.
use meterkit.Prelude.{
  String, Bool, true, false, List, [], ◌∷◌, ◌++◌, ◌==◌, if◌then◌else◌, any, mem, Result, ok, ◌>>=◌,
  ◌>>◌, reject_if,
}
use meterkit.Payments.{Payment, PaymentError, payment_replayed, parse_payment}

-- `MemoryPaymentStore`: the records in their order of insertion.
pub record MemoryStore : Type 0 where
  pub records : List Payment
  pub authorizations : List String

unfoldable pub has : String → MemoryStore → Bool
has signature s = any (λ p. p.signature == signature) s.records

unfoldable pub save : Payment → MemoryStore → Result PaymentError MemoryStore
unfolding parse_payment has
save p s = do
  reject_if (has p.signature s) payment_replayed
  value ← parse_payment p
  ok (record s { records = s.records ++ (value ∷ []) })

unfoldable pub list : MemoryStore → List Payment
list s = s.records

unfoldable pub reserve_authorization : String → MemoryStore → MemoryStore × Bool
reserve_authorization fingerprint s =
    if mem fingerprint s.authorizations
    then (s, false)
    else (record s { authorizations = fingerprint ∷ s.authorizations }, true)
