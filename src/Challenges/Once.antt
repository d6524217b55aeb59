-- ===== src/Challenges/Once.antt =====
-- A nonce verifies once, whatever the gateway does in between, over any store whose challenges can be consumed
-- once; both stores are.
use meterkit.Prelude.{
  ℕ, String, ◌≡◌, refl, Bool, true, false, ◌&&◌, not, none, List, [], ◌∷◌, ◌==◌, ◌=/=◌, eq_iff,
  find, filter, map, mem, all, arith, and-true, mem-filter-false, Bool-cases, inl, inr, leb, length,
}
use meterkit.Challenges.{
  Challenge, ChallengeStore, Crypto, IssueInput, VerifyInput, set_entry, purge, purge_of, active_of,
  memory_save, table_save, consume_entry, memory_store, table_store, to_challenge, issue, verify,
}

-- The law of a store that `verify` needs: it knows which challenges are open. One that is not open is not found,
-- a challenge is no longer open when it was consumed, and only a save of its own nonce opens it.
pub record IsSingleUse {S : Type 0} (store : ChallengeStore S) : Type 0 where
  pub is_open : String → S → Bool
  pub absent :
      (h : String) (s : S) → is_open h s ≡ false → (store.consume_wallet_challenge h s).1 ≡ none
  pub consumed : (h : String) (s : S) → is_open h (store.consume_wallet_challenge h s).0 ≡ false
  pub consume_keeps :
      (h k : String) (s : S)
      → is_open h s ≡ false
      → is_open h (store.consume_wallet_challenge k s).0 ≡ false
  pub save_keeps :
      (h : String) (now : ℕ) (c : Challenge) (max_active : ℕ) (s : S)
      → (h == c.nonce_hash) ≡ false
      → is_open h s ≡ false
      → is_open h (store.save_wallet_challenge now c max_active s).0 ≡ false

abbrev has_entry : String → List Challenge → Bool
has_entry h s = mem h (map (λ v. v.nonce_hash) s)

find-absent :
    (h : String) (s : List Challenge)
    → has_entry h s ≡ false
    → find (λ v. v.nonce_hash == h) s ≡ none
find-absent h [] e = refl
find-absent h (v ∷ s) e =
    ground (arith, eq_iff h v.nonce_hash, eq_iff v.nonce_hash h, find-absent h s)

filter-consumed :
    (h : String) (s : List Challenge)
    → has_entry h (filter (λ v. not (v.nonce_hash == h)) s) ≡ false
filter-consumed h [] = refl
filter-consumed h (v ∷ s) =
    ground (arith, eq_iff h v.nonce_hash, eq_iff v.nonce_hash h, filter-consumed h s)

set_entry-keeps :
    (h : String) (c : Challenge) (s : List Challenge)
    → (h == c.nonce_hash) ≡ false
    → has_entry h s ≡ false
    → has_entry h (set_entry c s) ≡ false
unfolding set_entry
set_entry-keeps h c [] e k = ground (arith, e)
set_entry-keeps h c (x ∷ xs) e k = ground (arith, e, k, set_entry-keeps h c xs e)

filter-keeps :
    (h : String) (p : Challenge → Bool) (s : List Challenge)
    → has_entry h s ≡ false
    → has_entry h (filter p s) ≡ false
filter-keeps h p s = mem-filter-false (λ v. v.nonce_hash) h p s

memory_save-keeps :
    (h : String) (now : ℕ) (c : Challenge) (max_active : ℕ) (s : List Challenge)
    → (h == c.nonce_hash) ≡ false
    → has_entry h s ≡ false
    → has_entry h (memory_save now c max_active s).0 ≡ false
unfolding memory_save purge
memory_save-keeps h now c max_active s e k =
    let purged = filter-keeps h (λ v. not (leb v.expires_at now)) s k in
    elim (Bool-cases (leb max_active (length (active_of c.wallet now (purge now s))))) [
      | inl f ↦ rw f purged
      | inr f ↦ rw f (set_entry-keeps h c (purge now s) e purged)
    ]

table_save-keeps :
    (h : String) (now : ℕ) (c : Challenge) (max_active : ℕ) (s : List Challenge)
    → (h == c.nonce_hash) ≡ false
    → has_entry h s ≡ false
    → has_entry h (table_save now c max_active s).0 ≡ false
unfolding table_save purge_of
table_save-keeps h now c max_active s e k =
    let purged = filter-keeps h (λ v. not (v.wallet == c.wallet && leb v.expires_at now)) s k in
    ground (arith, e, k, purged)

pub memory_store-IsSingleUse : IsSingleUse memory_store
unfolding memory_store consume_entry
memory_store-IsSingleUse = record {
  is_open = has_entry;
  absent = find-absent;
  consumed = filter-consumed;
  consume_keeps = λ h k s e. filter-keeps h (λ v. not (v.nonce_hash == k)) s e;
  save_keeps = memory_save-keeps;
}

pub table_store-IsSingleUse : IsSingleUse table_store
unfolding table_store consume_entry
table_store-IsSingleUse = record {
  is_open = has_entry;
  absent = find-absent;
  consumed = filter-consumed;
  consume_keeps = λ h k s e. filter-keeps h (λ v. not (v.nonce_hash == k)) s e;
  save_keeps = table_save-keeps;
}

-- What the gateway does with the store, with its times and the nonces that it draws.
pub data ChallengeCall : Type 0 where
  issues : IssueInput → String → ℕ → ChallengeCall
  verifies : VerifyInput → ℕ → ChallengeCall

module _ (crypto : Crypto) {S : Type 0} (store : ChallengeStore S) (max_active : ℕ) where
  unfoldable pub step : ChallengeCall → S → S
  step (issues i nonce now) s = (issue crypto store max_active i nonce now s).0
  step (verifies i now) s = (verify crypto store max_active i now s).0

  unfoldable pub run : List ChallengeCall → S → S
  unfolding step
  run [] s = s
  run (c ∷ cs) s = run cs (step c s)

  -- The calls that do not issue this nonce again.
  abbrev pub draws_other : String → ChallengeCall → Bool
  draws_other nonce (issues i drawn now) = crypto.sha256_hex nonce =/= crypto.sha256_hex drawn
  draws_other nonce (verifies i now) = true

  module _ (law : IsSingleUse store) (nonce : String) where
    abbrev IsSpent : S → Type 0
    IsSpent s = law.is_open (crypto.sha256_hex nonce) s ≡ false

    step-IsSpent :
        (c : ChallengeCall) (s : S) → draws_other nonce c ≡ true → IsSpent s → IsSpent (step c s)
    unfolding step issue verify to_challenge
    step-IsSpent (issues i drawn now) s other h =
        law.save_keeps (crypto.sha256_hex nonce) now (to_challenge crypto i drawn now) max_active s
          (ground (arith, other)) h
    step-IsSpent (verifies i now) s other h =
        law.consume_keeps (crypto.sha256_hex nonce) (crypto.sha256_hex i.nonce) s h

    run-IsSpent :
        (cs : List ChallengeCall) (s : S)
        → all (draws_other nonce) cs ≡ true
        → IsSpent s
        → IsSpent (run cs s)
    unfolding run
    run-IsSpent [] s others h = h
    run-IsSpent (c ∷ cs) s others h =
        let (head, rest) = and-true {a = draws_other nonce c} others in
        run-IsSpent cs (step c s) rest (step-IsSpent c s head h)

    -- Over a store of single use: once `verify` was called with a nonce, whatever came of it, no later call with
    -- this nonce verifies, whatever is presented with it and whatever challenges are issued and verified in
    -- between, as long as none is issued with a nonce of the same digest.
    pub verify-once :
        (i j : VerifyInput) (now later : ℕ) (cs : List ChallengeCall) (s : S)
        → i.nonce ≡ nonce
        → j.nonce ≡ nonce
        → all (draws_other nonce) cs ≡ true
        → (verify crypto store max_active j later
            (run cs (verify crypto store max_active i now s).0)).1
          ≡ false
    unfolding verify
    verify-once i j now later cs s first again others =
        let used = law.consumed (crypto.sha256_hex nonce) s in
        let still =
          run-IsSpent cs (store.consume_wallet_challenge (crypto.sha256_hex nonce) s).0 others
            used in
        rw (first, again, law.absent (crypto.sha256_hex nonce) _ still) refl
