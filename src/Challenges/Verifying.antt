-- ===== src/Challenges/Verifying.antt =====
-- What a verified challenge guarantees, over any store of challenges.
use meterkit.Prelude.{
  ℕ, ◌≤◌, ◌≡◌, refl, Bool, true, false, not, ◌&&◌, ◌||◌, Option, none, some, List, [], ◌∷◌, ◌=/=◌,
  eq_iff, Option-cases, inl, inr, arith, length, nat_eq, ltb, and-true,
}
use meterkit.Challenges.{
  Challenge, ChallengeStore, Crypto, VerifyInput, accepts, verify, ed25519_valid, same_bytes,
  is_true,
}

-- What `verify` has found where it accepts.
pub record IsVerified (crypto : Crypto) (i : VerifyInput) (now : ℕ) (c : Challenge) : Type 0 where
  pub wallet : c.wallet ≡ i.wallet
  pub request_hash : c.request_hash ≡ i.request_hash
  pub idempotency_key : c.idempotency_key ≡ i.idempotency_key
  pub unexpired : now ≤ c.expires_at
  pub message : crypto.from_base64 i.signed_message ≡ crypto.from_utf8 c.message
  pub key : List ℕ
  pub decoded : crypto.from_base58 i.wallet ≡ some key
  pub key_length : length key ≡ 32
  pub signed :
      crypto.verify key (crypto.from_base64 i.signed_message) (crypto.from_base64 i.signature)
      ≡ some true

same_bytes-eq : (xs ys : List ℕ) → same_bytes xs ys ≡ true → xs ≡ ys
same_bytes-eq [] [] h = refl
same_bytes-eq [] (y ∷ ys) h = cc
same_bytes-eq (x ∷ xs) [] h = cc
same_bytes-eq (x ∷ xs) (y ∷ ys) h =
    let (same, rest) = and-true {a = nat_eq x y} h in
    let head : x ≡ y = ground (arith, same) in rw (head, same_bytes-eq xs ys rest) refl

is_true-eq : (o : Option Bool) → is_true o ≡ true → o ≡ some true
is_true-eq none h = cc
is_true-eq (some true) h = refl
is_true-eq (some false) h = cc

accepts-IsVerified :
    (crypto : Crypto) (i : VerifyInput) (now : ℕ) (c : Challenge)
    → accepts crypto i now c ≡ true
    → IsVerified crypto i now c
unfolding accepts
accepts-IsVerified crypto i now c h =
    let message = crypto.from_base64 i.signed_message in
    let signature = crypto.from_base64 i.signature in
    let matches = not (
      c.wallet =/= i.wallet
      || c.request_hash =/= i.request_hash
      || c.idempotency_key =/= i.idempotency_key
      || ltb c.expires_at now) in
    let same = same_bytes message (crypto.from_utf8 c.message) in
    let signed = ed25519_valid crypto i.wallet message signature (crypto.from_base58 i.wallet) in
    let (both, valid) = and-true {a = matches && same} {b = signed} h in
    let (fields, bytes) = and-true {a = matches} {b = same} both in
    elim (Option-cases (crypto.from_base58 i.wallet)) [
      | inl e ↦ cc (rw e at valid)
      | inr (key, e) ↦
          let (long, ok_) =
            and-true {a = nat_eq (length key) 32}
              {b = is_true (crypto.verify key message signature)} (rw e at valid) in
          record {
            wallet = ground (arith, fields, eq_iff c.wallet i.wallet);
            request_hash = ground (arith, fields, eq_iff c.request_hash i.request_hash);
            idempotency_key = ground (arith, fields, eq_iff c.idempotency_key i.idempotency_key);
            unexpired = ground (arith, fields);
            message = same_bytes-eq _ _ bytes;
            key = key;
            decoded = e;
            key_length = ground (arith, long);
            signed = is_true-eq _ ok_;
          }
    ]

-- `verify` accepts only what a challenge of the store answers for: issued for the same wallet, request
-- and idempotency key, not past its expiry, with its very message signed by the key of the wallet.
pub verify-IsVerified :
    (crypto : Crypto) {S : Type 0} (store : ChallengeStore S) (max_active : ℕ) (i : VerifyInput)
    (now : ℕ) (s : S)
    → (verify crypto store max_active i now s).1 ≡ true
    → (c : Challenge) × ((store.consume_wallet_challenge (crypto.sha256_hex i.nonce) s).1 ≡ some c)
      × IsVerified crypto i now c
unfolding verify
verify-IsVerified crypto store max_active i now s h =
    elim (Option-cases (store.consume_wallet_challenge (crypto.sha256_hex i.nonce) s).1) [
      | inl e ↦ cc (rw e at h)
      | inr (c, e) ↦ (c, e, accepts-IsVerified crypto i now c (rw e at h))
    ]
