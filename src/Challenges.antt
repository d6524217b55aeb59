-- ===== src/Challenges.antt =====
-- Wallet challenges: apps/gateway/src/wallet-auth.ts, and the table `wallet_challenges` of
-- packages/database/src/index.ts. SHA-256, the encodings and the Ed25519 check are the platform's:
-- the fields of `Crypto`.
pub mod Verifying
pub mod Once
pub mod Issuing
pub mod Tests
use meterkit.Prelude.{
  ℕ, zero, suc, ◌+◌, String, Bool, true, false, not, ◌&&◌, ◌||◌, Option, none, some, List, [], ◌∷◌,
  ◌==◌, ◌=/=◌, ltb, leb, nat_eq, length, any, find, filter, if◌then◌else◌, Result, ok, err, ◌>>=◌,
  ◌>>◌, reject_if,
}
use Prim.Native.String

-- `WalletChallengeRecord`.
pub record Challenge : Type 0 where
  pub nonce_hash : String
  pub wallet : String
  pub message : String
  pub request_hash : String
  pub idempotency_key : String
  pub expires_at : ℕ

pub data ChallengeError : Type 0 where
  too_many_active_challenges : ChallengeError
  -- The primary key of the table.
  duplicate_nonce : ChallengeError

-- `WalletChallengeStore`: a save gives the next state also where it throws.
pub record ChallengeStore (S : Type 0) : Type 0 where
  pub save_wallet_challenge : ℕ → Challenge → ℕ → S → S × Option ChallengeError
  pub consume_wallet_challenge : String → S → S × Option Challenge

-- `Map.set`, on the entries in their order.
unfoldable pub set_entry : Challenge → List Challenge → List Challenge
set_entry c [] = c ∷ []
set_entry c (x ∷ xs) = if x.nonce_hash == c.nonce_hash then c ∷ xs else x ∷ set_entry c xs

unfoldable pub purge : ℕ → List Challenge → List Challenge
purge now s = filter (λ v. not (leb v.expires_at now)) s

unfoldable pub active_of : String → ℕ → List Challenge → List Challenge
active_of wallet now s = filter (λ v. v.wallet == wallet && ltb now v.expires_at) s

-- `MemoryWalletChallengeStore.saveWalletChallenge`: the expired ones are gone in any case.
unfoldable pub memory_save :
    ℕ → Challenge → ℕ → List Challenge → List Challenge × Option ChallengeError
unfolding set_entry purge active_of
memory_save now c max_active s =
    if leb max_active (length (active_of c.wallet now (purge now s)))
    then (purge now s, some too_many_active_challenges)
    else (set_entry c (purge now s), none)

-- Both stores delete the entry of the nonce and return it.
unfoldable pub consume_entry : String → List Challenge → List Challenge × Option Challenge
consume_entry nonce_hash s =
    (filter (λ v. not (v.nonce_hash == nonce_hash)) s, find (λ v. v.nonce_hash == nonce_hash) s)

unfoldable pub memory_store : ChallengeStore (List Challenge)
memory_store = record {
  save_wallet_challenge = memory_save;
  consume_wallet_challenge = consume_entry;
}

unfoldable pub purge_of : String → ℕ → List Challenge → List Challenge
purge_of wallet now rows = filter (λ v. not (v.wallet == wallet && leb v.expires_at now)) rows

-- `PostgresStore.saveWalletChallenge`: one transaction, so an error leaves the rows.
unfoldable pub table_save :
    ℕ → Challenge → ℕ → List Challenge → List Challenge × Option ChallengeError
unfolding purge_of active_of
table_save now c max_active rows =
    if leb max_active (length (active_of c.wallet now (purge_of c.wallet now rows)))
    then (rows, some too_many_active_challenges)
    else if any (λ v. v.nonce_hash == c.nonce_hash) (purge_of c.wallet now rows)
    then (rows, some duplicate_nonce)
    else (c ∷ purge_of c.wallet now rows, none)

unfoldable pub table_store : ChallengeStore (List Challenge)
table_store = record {
  save_wallet_challenge = table_save;
  consume_wallet_challenge = consume_entry;
}

-- Texts, bytes and signatures. `verify` is none where the platform throws.
pub record Crypto : Type 0 where
  pub sha256_hex : String → String
  pub from_base64 : String → List ℕ
  pub from_utf8 : String → List ℕ
  pub from_base58 : String → Option (List ℕ)
  pub verify : (key message signature : List ℕ) → Option Bool
  pub to_iso : ℕ → String

pub record IssueInput : Type 0 where
  pub wallet : String
  pub request_hash : String
  pub idempotency_key : String
  pub audience : String
  pub method : String
  pub path : String

pub record VerifyInput : Type 0 where
  pub wallet : String
  pub nonce : String
  pub signed_message : String
  pub signature : String
  pub request_hash : String
  pub idempotency_key : String

-- `[…].join("\n")`.
abbrev join_lines : List String → String
join_lines [] = ""
join_lines (x ∷ []) = x
join_lines (x ∷ y ∷ xs) = String.◌++◌ x (String.◌++◌ "\n" (join_lines (y ∷ xs)))

abbrev same_bytes : List ℕ → List ℕ → Bool
same_bytes [] [] = true
same_bytes (a ∷ as') (b ∷ bs) = nat_eq a b && same_bytes as' bs
same_bytes _ _ = false

abbrev is_true : Option Bool → Bool
is_true (some true) = true
is_true _ = false

module _ (crypto : Crypto) where
  unfoldable pub challenge_message : IssueInput → (nonce : String) → (expires_at : ℕ) → String
  challenge_message i nonce expires_at = join_lines (
      "MeterKit product authorization"
      ∷ String.◌++◌ "Audience: " i.audience
      ∷ String.◌++◌ "Method: " i.method
      ∷ String.◌++◌ "Path: " i.path
      ∷ String.◌++◌ "Wallet: " i.wallet
      ∷ String.◌++◌ "Request-SHA256: " i.request_hash
      ∷ String.◌++◌ "Idempotency-Key: " i.idempotency_key
      ∷ String.◌++◌ "Nonce: " nonce
      ∷ String.◌++◌ "Expires: " (crypto.to_iso expires_at)
      ∷ [])

  unfoldable pub to_challenge : IssueInput → String → ℕ → Challenge
  unfolding challenge_message
  to_challenge i nonce now = record {
    nonce_hash = crypto.sha256_hex nonce;
    wallet = i.wallet;
    message = challenge_message i nonce (now + 300_000);
    request_hash = i.request_hash;
    idempotency_key = i.idempotency_key;
    expires_at = now + 300_000;
  }

  abbrev ed25519_valid : (wallet : String) → (message signature : List ℕ) → Option (List ℕ) → Bool
  ed25519_valid wallet message signature none = false
  ed25519_valid wallet message signature (some key) =
      nat_eq (length key) 32 && is_true (crypto.verify key message signature)

  -- The checks of `verify` on the challenge that was consumed.
  unfoldable pub accepts : VerifyInput → ℕ → Challenge → Bool
  accepts i now c =
      not (
        c.wallet =/= i.wallet
        || c.request_hash =/= i.request_hash
        || c.idempotency_key =/= i.idempotency_key
        || ltb c.expires_at now)
      && same_bytes (crypto.from_base64 i.signed_message) (crypto.from_utf8 c.message)
      && ed25519_valid i.wallet (crypto.from_base64 i.signed_message)
          (crypto.from_base64 i.signature) (crypto.from_base58 i.wallet)

  abbrev accepts_found : VerifyInput → ℕ → Option Challenge → Bool
  accepts_found i now none = false
  accepts_found i now (some c) = accepts i now c

  module _ {S : Type 0} (store : ChallengeStore S) (max_active : ℕ) where
    -- `issue`, with the random nonce as an argument: an error of the store is thrown on.
    unfoldable pub issue : IssueInput → String → ℕ → S → S × Option ChallengeError
    unfolding to_challenge
    issue i nonce now s = store.save_wallet_challenge now (to_challenge i nonce now) max_active s

    -- `verify`: the challenge is consumed before anything is checked.
    unfoldable pub verify : VerifyInput → ℕ → S → S × Bool
    unfolding accepts
    verify i now s =
        let taken = store.consume_wallet_challenge (crypto.sha256_hex i.nonce) s in
        (taken.0, accepts_found i now taken.1)
