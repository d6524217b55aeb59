-- ===== src/Payments/Standalone.antt =====
-- `StandalonePostgresPaymentStore` of packages/database/src/standalone-payment-store.ts, with the tables of
-- packages/database/migrations/standalone. It keeps the SHA-256 of a signature in place of the signature.
use meterkit.Prelude.{
  ℕ, String, ◌≡◌, ◌∙◌, refl, sym, Bool, true, false, not, ◌&&◌, ◌||◌, ◌==◌, leb, ltb, nat_eq,
  length, all, some, List, [], ◌∷◌, any, mem, if◌then◌else◌, Result, ok, ◌>>=◌, ◌>>◌, reject_if,
  arith, eq_iff, bind-ok, reject_if-ok,
}
use meterkit.Platform.{Runtime, codes, in_range, solana_devnet}
use Prim.Native.Nat.{◌^◌}
use meterkit.Authorization.Budget.{fingerprint}
use meterkit.Payments.{
  Payment, PaymentError, payment_replayed, constraint_violated, parse_payment, parse_payment-ok,
}
use meterkit.Payments.Interface.{PaymentStore}

-- A row of `meterkit_consumed_payments`.
pub record ConsumedRow : Type 0 where
  pub network : String
  pub signature_hash : String
  pub signature_fingerprint : String
  pub product_id : String
  pub amount_atomic : ℕ
  pub recipient : String
  pub accepted_at : ℕ

-- The two tables; of `meterkit_authorization_reservations`, the fingerprints on this network.
pub record Tables : Type 0 where
  pub consumed_payments : List ConsumedRow
  pub authorization_reservations : List String

module _ (rt : Runtime) where
  unfoldable pub has : String → Tables → Bool
  has signature t =
      any (λ r. r.network == solana_devnet && r.signature_hash == rt.sha256_hex signature)
        t.consumed_payments

  unfoldable pub to_row : Payment → ConsumedRow
  to_row p = record {
    network = p.network;
    signature_hash = rt.sha256_hex p.signature;
    signature_fingerprint = fingerprint rt p.signature;
    product_id = p.product_id;
    amount_atomic = p.amount_atomic;
    recipient = p.pay_to;
    accepted_at = p.settled_at;
  }

  abbrev pub at_most : ℕ → String → Bool
  at_most n s = leb (length (codes s)) n

  -- The CHECK constraints. The amount is a text: its digits are at most 64.
  unfoldable pub is_row : ConsumedRow → Bool
  is_row r =
      nat_eq (length (codes r.signature_hash)) 64
      && at_most 32 r.signature_fingerprint
      && at_most 128 r.product_id
      && ltb r.amount_atomic (10 ^ 64)
      && at_most 128 r.recipient

  -- The primary key.
  unfoldable pub conflicts : ConsumedRow → ConsumedRow → Bool
  conflicts new r = r.network == new.network && r.signature_hash == new.signature_hash

  unfoldable pub save : Payment → Tables → Result PaymentError Tables
  unfolding to_row is_row conflicts
  save p t = do
    value ← parse_payment p
    reject_if (not (is_row (to_row value))) constraint_violated
    reject_if (any (conflicts (to_row value)) t.consumed_payments) payment_replayed
    ok (record t { consumed_payments = to_row value ∷ t.consumed_payments })

  -- [a-f0-9]
  abbrev pub is_hex : ℕ → Bool
  is_hex c = in_range b'a' b'f' c || in_range b'0' b'9' c

  unfoldable pub is_proof : String → Bool
  is_proof s = nat_eq (length (codes s)) 64 && all is_hex (codes s)

  -- `reserveAuthorization`: a fingerprint that is no digest is refused by an error, false here.
  unfoldable pub reserve_authorization : String → Tables → Tables × Bool
  unfolding is_proof
  reserve_authorization proof t =
      if is_proof proof && not (mem proof t.authorization_reservations)
      then (record t { authorization_reservations = proof ∷ t.authorization_reservations }, true)
      else (t, false)

  unfoldable pub standalone_payment_store : PaymentStore Tables
  standalone_payment_store = record {
    has = has;
    save = save;
    reserve_authorization = some reserve_authorization;
  }

  any-conflicts_has :
      (p : Payment) (rows : List ConsumedRow)
      → p.network ≡ solana_devnet
      → any (conflicts (to_row p)) rows
        ≡ any
            (λ r. r.network == solana_devnet && r.signature_hash == rt.sha256_hex p.signature)
            rows
  unfolding conflicts to_row
  any-conflicts_has p [] n = refl
  any-conflicts_has p (r ∷ rows) n = rw (any-conflicts_has p rows n, n) refl

  -- A payment is saved only where `has` does not know its signature; from then on `has` knows that one, and
  -- every signature with the same digest, and those that it knew before.
  pub save-has :
      (p : Payment) (t t' : Tables)
      → save p t ≡ ok t'
      → (has p.signature t ≡ false)
        × ((k : String) → has k t' ≡ (rt.sha256_hex p.signature == rt.sha256_hex k || has k t))
  unfolding save has
  save-has p t t' h =
      let (v, parsed, h₁) = bind-ok (parse_payment p) h in
      let (same, network) = parse_payment-ok p parsed in
      let (_, h₂) = reject_if-ok (not (is_row (to_row v))) constraint_violated h₁ in
      let (new, h₃) =
        reject_if-ok (any (conflicts (to_row v)) t.consumed_payments) payment_replayed h₂ in
      let grown : record t { consumed_payments = to_row v ∷ t.consumed_payments } ≡ t' = cc h₃ in
      (
        sym (any-conflicts_has p t.consumed_payments network) ∙ (rw same at new),
        λ k. rw (← grown, same) (ground (arith, network, eq_iff p.network solana_devnet)),
      )
