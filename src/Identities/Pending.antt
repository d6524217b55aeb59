-- ===== src/Identities/Pending.antt =====
-- Link states that wait: what the calls of others leave of a state.
use meterkit.Prelude.{
  ℕ, String, ◌≡◌, refl, Bool, true, false, not, some, List, [], ◌∷◌, ◌==◌, ◌=/=◌, eq_refl, find,
  filter, any-mem, find-mem, mem, All-find, All-find_self, ≢→==-false, ◌<◌, ltb, all, arith,
  Bool-cases, inl, inr, ok, Result-cases, and-true, leb,
}
use meterkit.Identities.{
  UserWallet, GitHubIdentity, LinkState, Directory, ensure_user_for_wallet, create_oauth_link_state,
  is_usable, wallet_of_user, consume_oauth_link_state, link_github_identity, clean_link_states,
  TableCall, create_state, consume_state, link_identity, clean_up, call, run,
}
use meterkit.Identities.Keeping.{
  hashes, IsDirectory, ensure_user-cases, create-cases, consume-cases,
}
use meterkit.Identities.Linking.{link-cases, call-IsDirectory}

-- A state is there, and its user has the wallet.
pub record IsPending (hash user owner : String) (expires_at : ℕ) (db : Directory) : Type 0 where
  pub state :
      find (λ s. s.state_hash == hash) db.link_states
      ≡ some (record { state_hash = hash; user_id = user; expires_at = expires_at })
  pub owned :
      find (λ w. w.user_id == user) db.user_wallets
      ≡ some (record { user_id = user; wallet = owner })

-- The user that a wallet gets has that wallet.
pub ensure_user-owner :
    (fresh owner : String) (db db' : Directory) (user : String)
    → IsDirectory db
    → ensure_user_for_wallet fresh owner db ≡ ok (db', user)
    → find (λ w. w.user_id == user) db'.user_wallets
      ≡ some (record { user_id = user; wallet = owner })
ensure_user-owner fresh owner db db' user d h = elim (ensure_user-cases fresh owner db db' user h) [
  | inl (w, e, same, u) ↦
      let found =
        All-find (λ z. find (λ v. v.user_id == z.user_id) db.user_wallets ≡ some z)
          (λ w. w.wallet == owner) db.user_wallets
          (All-find_self (λ w. w.user_id) db.user_wallets d.owners_distinct) e in
      let named = (find-mem (λ w. w.wallet) owner db.user_wallets e).0 in
      rw (← same, ← u, ← named) found
  | inr (e, new, same, u) ↦ rw (← same, ← u, eq_refl fresh) refl
]

-- A user that has a wallet keeps it when others get theirs.
ensure_user-keeps :
    (fresh other : String) (db db' : Directory) (new user : String) {w : UserWallet}
    → IsDirectory db
    → ensure_user_for_wallet fresh other db ≡ ok (db', new)
    → find (λ w. w.user_id == user) db.user_wallets ≡ some w
    → (find (λ w. w.user_id == user) db'.user_wallets ≡ some w) × (db'.link_states ≡ db.link_states)
ensure_user-keeps fresh other db db' new user {w} d h f =
    elim (ensure_user-cases fresh other db db' new h) [
      | inl (v, e, same, u) ↦ rw (← same) (f, refl)
      | inr (e, unknown, same, u) ↦
          let known =
            All-find (λ w. mem w.user_id db.users ≡ true) (λ w. w.user_id == user) db.user_wallets
              d.owners_known f in
          let named = (find-mem (λ w. w.user_id) user db.user_wallets f).0 in
          let ne : (fresh == user) ≡ false = ≢→==-false fresh user (λ p. cc) in
          rw (← same, ne) (f, refl)
    ]

-- A row that a filter keeps is still found.
find-filter {ℓ} :
    {A : Type ℓ} (q p : A → Bool) (xs : List A) {x : A}
    → find q xs ≡ some x
    → p x ≡ true
    → find q (filter p xs) ≡ some x
find-filter q p [] h k = cc
find-filter q p (y ∷ ys) {x} h k = elim (Bool-cases (q y)) [
  | inl e ↦
      let same : some y ≡ some x = rw e at h in
      let hit : y ≡ x = cc in rw (hit, k, rw hit at e) refl
  | inr e ↦
      let rest = find-filter q p ys {x = x} (rw e at h) k in
      elim (Bool-cases (p y)) [ inl f ↦ rw (f, e) rest | inr f ↦ rw f rest ]
]

find-usable :
    (now : ℕ) (hash : String) (xs : List LinkState) {s : LinkState}
    → find (λ s. s.state_hash == hash) xs ≡ some s
    → now < s.expires_at
    → find (is_usable now hash) xs ≡ some s
find-usable now hash [] h k = cc
find-usable now hash (x ∷ xs) {s} h k = elim (Bool-cases (x.state_hash == hash)) [
  | inl e ↦
      let same : some x ≡ some s = rw e at h in let hit : x ≡ s = cc in ground (arith, hit, e, k)
  | inr e ↦ rw e (find-usable now hash xs {s = s} (rw e at h) k)
]

-- The calls that leave a state: they neither consume it nor clean up after its time.
abbrev pub spares : String → ℕ → TableCall → Bool
spares hash expires_at (consume_state now other) = hash =/= other
spares hash expires_at (clean_up now) = ltb now expires_at
spares hash expires_at _ = true

module _ (hash user owner : String) (expires_at : ℕ) where
  create-keeps :
      (now db_now : ℕ) (fresh other other_hash : String) (until : ℕ) (db db' : Directory)
      → IsDirectory db
      → create_oauth_link_state now db_now fresh other other_hash until db ≡ ok db'
      → IsPending hash user owner expires_at db
      → IsPending hash user owner expires_at db'
  create-keeps now db_now fresh other other_hash until db db' d h p =
      let (between, new, e, free, same) =
        create-cases now db_now fresh other other_hash until db db' h in
      let (owned, states) = ensure_user-keeps fresh other db between new user d e p.owned in
      let there = (find-mem (λ s. s.state_hash) hash db.link_states p.state).1 in
      let absent : mem other_hash (hashes db.link_states) ≡ false =
        rw (any-mem (λ s. s.state_hash) other_hash between.link_states, states) at free in
      let ne : (other_hash == hash) ≡ false = ≢→==-false other_hash hash (λ q. cc) in
      rw same (record { state = rw (ne, states) (p.state); owned = owned })

  link-keeps :
      (fresh other : String) (identity : GitHubIdentity) (db db' : Directory)
      → IsDirectory db
      → link_github_identity fresh other identity db ≡ ok db'
      → IsPending hash user owner expires_at db
      → IsPending hash user owner expires_at db'
  link-keeps fresh other identity db db' d h p =
      let (between, new, rows, e, f, same) = link-cases fresh other identity db db' h in
      let (owned, states) = ensure_user-keeps fresh other db between new user d e p.owned in
      rw same (record { state = rw states (p.state); owned = owned })

  filter-keeps :
      (keep : LinkState → Bool) (db : Directory)
      → keep (record { state_hash = hash; user_id = user; expires_at = expires_at }) ≡ true
      → IsPending hash user owner expires_at db
      → IsPending hash user owner expires_at
          (record db { link_states = filter keep db.link_states })
  filter-keeps keep db k p = record {
    state = find-filter (λ s. s.state_hash == hash) keep db.link_states p.state k;
    owned = p.owned;
  }

  consume-keeps :
      (now : ℕ) (other : String) (db : Directory)
      → (hash =/= other) ≡ true
      → IsPending hash user owner expires_at db
      → IsPending hash user owner expires_at (consume_oauth_link_state now other db).0
  consume-keeps now other db k p = elim (consume-cases now other db) [
    | inl same ↦ rw same p
    | inr (s, w, e, f, same) ↦
        rw same (filter-keeps (λ s. not (is_usable now other s)) db (ground (arith, k)) p)
  ]

  call-keeps :
      (c : TableCall) (db : Directory)
      → IsDirectory db
      → spares hash expires_at c ≡ true
      → IsPending hash user owner expires_at db
      → IsPending hash user owner expires_at (call c db)
  unfolding call clean_link_states
  call-keeps (create_state now db_now fresh other h until) db d k p =
      elim (Result-cases (create_oauth_link_state now db_now fresh other h until db)) [
        | inl (db', e) ↦ rw e (create-keeps now db_now fresh other h until db db' d e p)
        | inr (e, f) ↦ rw f p
      ]
  call-keeps (consume_state now other) db d k p = consume-keeps now other db k p
  call-keeps (link_identity fresh other identity) db d k p =
      elim (Result-cases (link_github_identity fresh other identity db)) [
        | inl (db', e) ↦ rw e (link-keeps fresh other identity db db' d e p)
        | inr (e, f) ↦ rw f p
      ]
  call-keeps (clean_up now) db d k p =
      filter-keeps (λ s. not (leb s.expires_at now)) db (ground (arith, k)) p

  pub run-keeps :
      (cs : List TableCall) (db : Directory)
      → IsDirectory db
      → all (spares hash expires_at) cs ≡ true
      → IsPending hash user owner expires_at db
      → IsPending hash user owner expires_at (run cs db)
  unfolding run
  run-keeps [] db d k p = p
  run-keeps (c ∷ cs) db d k p =
      let (head, rest) = and-true {a = spares hash expires_at c} k in
      run-keeps cs (call c db) (call-IsDirectory c db d) rest (call-keeps c db d head p)

  -- A pending state brings its wallet.
  pub IsPending-consume :
      (now : ℕ) (db : Directory)
      → now < expires_at
      → IsPending hash user owner expires_at db
      → (consume_oauth_link_state now hash db).1 ≡ some owner
  unfolding consume_oauth_link_state wallet_of_user
  IsPending-consume now db early p =
      rw (find-usable now hash db.link_states p.state early, p.owned) refl
