-- ===== src/Challenges/Issuing.antt =====
-- Issuing challenges: the bound on the active challenges of a wallet, and that an issued challenge
-- can be verified.
use meterkit.Prelude.{
  ℕ, ◌+◌, ◌≤◌, String, ◌≡◌, refl, true, none, some, List, [], ◌∷◌, ◌==◌, eq_refl, find, Bool-cases,
  inl, inr, arith, length, leb,
}
use meterkit.Challenges.{
  Challenge, Crypto, IssueInput, VerifyInput, set_entry, purge, active_of, memory_save,
  memory_store, table_save, consume_entry, to_challenge, challenge_message, issue, verify, accepts,
  same_bytes,
}

module _ (wallet : String) (now : ℕ) where
  active-set_entry :
      (c : Challenge) (s : List Challenge)
      → length (active_of wallet now (set_entry c s)) ≤ length (active_of wallet now s) + 1
  unfolding active_of set_entry
  active-set_entry c [] = ground arith
  active-set_entry c (x ∷ s) = ground (arith, active-set_entry c s)

-- A save of the memory store that succeeds leaves at most `max_active` challenges of the wallet that
-- are active.
pub memory_save-bounded :
    (now : ℕ) (c : Challenge) (max_active : ℕ) (s s' : List Challenge)
    → memory_save now c max_active s ≡ (s', none)
    → length (active_of c.wallet now s') ≤ max_active
unfolding memory_save
memory_save-bounded now c max_active s s' h =
    elim (Bool-cases (leb max_active (length (active_of c.wallet now (purge now s))))) [
      | inl e ↦ cc (rw e at h)
      | inr e ↦
          let same : set_entry c (purge now s) ≡ s' = cc (rw e at h) in
          rw (← same) (ground (arith, e, active-set_entry c.wallet now c (purge now s)))
    ]

-- A save of the table that succeeds leaves at most `max_active` challenges of the wallet that are
-- active.
pub table_save-bounded :
    (now : ℕ) (c : Challenge) (max_active : ℕ) (s s' : List Challenge)
    → table_save now c max_active s ≡ (s', none)
    → length (active_of c.wallet now s') ≤ max_active
unfolding table_save active_of
table_save-bounded now c max_active s s' h = ground (arith, h)

find-set_entry :
    (c : Challenge) (s : List Challenge)
    → find (λ v. v.nonce_hash == c.nonce_hash) (set_entry c s) ≡ some c
unfolding set_entry
find-set_entry c [] = ground (arith, eq_refl c.nonce_hash)
find-set_entry c (x ∷ s) = ground (arith, eq_refl c.nonce_hash, find-set_entry c s)

-- The challenge that the wallet signed.
abbrev pub answer_to : Crypto → IssueInput → (nonce signed signature : String) → VerifyInput
answer_to crypto i nonce signed signature = record {
  wallet = i.wallet;
  nonce = nonce;
  signed_message = signed;
  signature = signature;
  request_hash = i.request_hash;
  idempotency_key = i.idempotency_key;
}

same_bytes_refl : (xs : List ℕ) → same_bytes xs xs ≡ true
same_bytes_refl [] = refl
same_bytes_refl (x ∷ xs) = ground (arith, same_bytes_refl xs)

-- A challenge that the memory store issued verifies within its five minutes, if the message comes
-- back unchanged and the key of the wallet has signed it.
pub issue-verify :
    (crypto : Crypto) (max_active : ℕ) (i : IssueInput) (nonce signed signature : String)
    (key : List ℕ) (now later : ℕ) (s s' : List Challenge)
    → issue crypto memory_store max_active i nonce now s ≡ (s', none)
    → later ≤ now + 300_000
    → crypto.from_base64 signed
      ≡ crypto.from_utf8 (challenge_message crypto i nonce (now + 300_000))
    → crypto.from_base58 i.wallet ≡ some key
    → length key ≡ 32
    → crypto.verify key (crypto.from_base64 signed) (crypto.from_base64 signature) ≡ some true
    → (verify crypto memory_store max_active (answer_to crypto i nonce signed signature) later s').1
      ≡ true
unfolding issue verify memory_store memory_save consume_entry accepts to_challenge
issue-verify crypto max_active i nonce signed signature key now later s s' h early message decoded
      long valid =
    elim (Bool-cases (leb max_active (length (active_of i.wallet now (purge now s))))) [
      | inl e ↦ cc (rw e at h)
      | inr e ↦
          let c = to_challenge crypto i nonce now in
          let same : set_entry c (purge now s) ≡ s' = cc (rw e at h) in
          rw (← same, find-set_entry c (purge now s))
            (ground (
              arith,
              early,
              message,
              decoded,
              long,
              valid,
              eq_refl i.wallet,
              eq_refl i.request_hash,
              eq_refl i.idempotency_key,
              same_bytes_refl (crypto.from_utf8 (challenge_message crypto i nonce (now + 300_000))),
            ))
    ]
