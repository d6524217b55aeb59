-- ===== src/Identities/Once.antt =====
-- Link states: a state brings its wallet back, and once only.
use meterkit.Prelude.{
  ℕ, String, ◌≡◌, refl, Bool, true, false, not, none, some, List, [], ◌∷◌, ◌==◌, ◌=/=◌, eq_iff,
  eq_refl, find, filter, mem, Distinct, mem-filter-false, ◌<◌, ltb, all, arith, Bool-cases, inl,
  inr, ok, Result-cases, and-true, leb,
}
use meterkit.Identities.{
  GitHubIdentity, LinkState, Directory, ensure_user_for_wallet, create_oauth_link_state, is_usable,
  consume_oauth_link_state, link_github_identity, clean_link_states, TableCall, create_state,
  consume_state, link_identity, clean_up, call, run,
}
use meterkit.Identities.Keeping.{
  hashes, IsDirectory, empty, ensure_user-cases, create-cases, consume-cases, create-IsDirectory,
}
use meterkit.Identities.Linking.{link-cases, run-IsDirectory, empty-IsDirectory}
use meterkit.Identities.Pending.{IsPending, ensure_user-owner, IsPending-consume, run-keeps, spares}

-- The calls that do not create a state of this hash.
abbrev pub creates_other : String → TableCall → Bool
creates_other hash (create_state now db_now fresh owner other expires_at) = hash =/= other
creates_other hash _ = true

create-IsPending :
    (now db_now : ℕ) (fresh owner hash : String) (expires_at : ℕ) (db db' : Directory)
    → IsDirectory db
    → create_oauth_link_state now db_now fresh owner hash expires_at db ≡ ok db'
    → (user : String) × IsPending hash user owner expires_at db'
create-IsPending now db_now fresh owner hash expires_at db db' d h =
    let (between, user, e, free, same) =
      create-cases now db_now fresh owner hash expires_at db db' h in
    (
      user,
      rw same (record {
        state = rw (eq_refl hash) refl;
        owned = ensure_user-owner fresh owner db between user d e;
      }),
    )

unused :
    (now : ℕ) (hash : String) (xs : List LinkState)
    → mem hash (hashes xs) ≡ false
    → find (is_usable now hash) xs ≡ none
unused now hash [] h = refl
unused now hash (x ∷ xs) h =
    ground (arith, eq_iff hash x.state_hash, eq_iff x.state_hash hash, unused now hash xs)

-- The state that was used is gone.
used_up :
    (now : ℕ) (hash : String) (xs : List LinkState) {s : LinkState}
    → Distinct (hashes xs)
    → find (is_usable now hash) xs ≡ some s
    → mem hash (hashes (filter (λ s. not (is_usable now hash s)) xs)) ≡ false
used_up now hash [] d h = cc
used_up now hash (x ∷ xs) {s} d h = elim (Bool-cases (x.state_hash == hash)) [
  | inl e ↦
      let absent : mem hash (hashes xs) ≡ false = rw ((eq_iff x.state_hash hash).0 e) at (d.0) in
      elim (Bool-cases (ltb now x.expires_at)) [
        | inl f ↦
            rw (e, f)
              (mem-filter-false (λ s. s.state_hash) hash (λ s. not (is_usable now hash s)) xs
                absent)
        | inr f ↦ cc (unused now hash xs absent, rw (e, f) at h)
      ]
  | inr e ↦ ground (
    arith,
    e,
    eq_iff hash x.state_hash,
    eq_iff x.state_hash hash,
    used_up now hash xs {s = s} d.1 (rw e at h),
  )
]

-- A new user leaves the states.
ensure_user-states :
    (fresh owner : String) (db db' : Directory) (user : String)
    → ensure_user_for_wallet fresh owner db ≡ ok (db', user)
    → db'.link_states ≡ db.link_states
ensure_user-states fresh owner db db' user h = elim (ensure_user-cases fresh owner db db' user h) [
  | inl (w, e, same, u) ↦ rw (← same) refl
  | inr (e, new, same, u) ↦ rw (← same) refl
]

module _ (hash : String) where
  create-absent :
      (now db_now : ℕ) (fresh owner other : String) (expires_at : ℕ) (db db' : Directory)
      → create_oauth_link_state now db_now fresh owner other expires_at db ≡ ok db'
      → (hash =/= other) ≡ true
      → mem hash (hashes db.link_states) ≡ false
      → mem hash (hashes db'.link_states) ≡ false
  create-absent now db_now fresh owner other expires_at db db' e k h =
      let (between, user, f, free, same) =
        create-cases now db_now fresh owner other expires_at db db' e in
      rw (same, ensure_user-states fresh owner db between user f, h) (ground (arith, k))

  link-absent :
      (fresh owner : String) (identity : GitHubIdentity) (db db' : Directory)
      → link_github_identity fresh owner identity db ≡ ok db'
      → mem hash (hashes db.link_states) ≡ false
      → mem hash (hashes db'.link_states) ≡ false
  link-absent fresh owner identity db db' e h =
      let (between, user, rows, f, g, same) = link-cases fresh owner identity db db' e in
      rw (same, ensure_user-states fresh owner db between user f) h

  consume-absent :
      (now : ℕ) (other : String) (db : Directory)
      → mem hash (hashes db.link_states) ≡ false
      → mem hash (hashes (consume_oauth_link_state now other db).0.link_states) ≡ false
  consume-absent now other db h = elim (consume-cases now other db) [
    | inl same ↦ rw same h
    | inr (s, w, e, f, same) ↦ rw same (
        mem-filter-false (λ s. s.state_hash) hash (λ s. not (is_usable now other s)) db.link_states
          h)
  ]

call-absent :
    (hash : String) (c : TableCall) (db : Directory)
    → creates_other hash c ≡ true
    → mem hash (hashes db.link_states) ≡ false
    → mem hash (hashes (call c db).link_states) ≡ false
unfolding call clean_link_states
call-absent hash (create_state now db_now fresh owner other expires_at) db k h =
    elim (Result-cases (create_oauth_link_state now db_now fresh owner other expires_at db)) [
      | inl (db', e) ↦
          rw e (create-absent hash now db_now fresh owner other expires_at db db' e k h)
      | inr (e, f) ↦ rw f h
    ]
call-absent hash (consume_state now other) db k h = consume-absent hash now other db h
call-absent hash (link_identity fresh owner identity) db k h =
    elim (Result-cases (link_github_identity fresh owner identity db)) [
      | inl (db', e) ↦ rw e (link-absent hash fresh owner identity db db' e h)
      | inr (e, f) ↦ rw f h
    ]
call-absent hash (clean_up now) db k h =
    mem-filter-false (λ s. s.state_hash) hash (λ s. not (leb s.expires_at now)) db.link_states h

run-absent :
    (hash : String) (cs : List TableCall) (db : Directory)
    → all (creates_other hash) cs ≡ true
    → mem hash (hashes db.link_states) ≡ false
    → mem hash (hashes (run cs db).link_states) ≡ false
unfolding run
run-absent hash [] db k h = h
run-absent hash (c ∷ cs) db k h =
    let (head, rest) = and-true {a = creates_other hash c} k in
    run-absent hash cs (call c db) rest (call-absent hash c db head h)

-- What a state that was used leaves.
consume-used :
    (now : ℕ) (hash : String) (db : Directory) {owner : String}
    → IsDirectory db
    → (consume_oauth_link_state now hash db).1 ≡ some owner
    → mem hash (hashes (consume_oauth_link_state now hash db).0.link_states) ≡ false
consume-used now hash db d h = elim (consume-cases now hash db) [
  | inl same ↦ cc (rw same at h)
  | inr (s, w, e, f, same) ↦ rw same (used_up now hash db.link_states {s = s} d.hashes_distinct e)
]

absent-consume :
    (now : ℕ) (hash : String) (db : Directory)
    → mem hash (hashes db.link_states) ≡ false
    → (consume_oauth_link_state now hash db).1 ≡ none
unfolding consume_oauth_link_state
absent-consume now hash db h = rw (unused now hash db.link_states h) refl

-- A state that a wallet made, whatever was called before and, as far as no call consumed it or cleaned up at its end
-- or later, whatever was called since: it brings that wallet if it is consumed before it ends, and
-- nothing from then on, as long as no call makes a state of the same hash.
pub create-consume :
    (before cs after : List TableCall) (now db_now : ℕ) (fresh owner hash : String) (expires_at : ℕ)
    (made : Directory) (used later : ℕ)
    → create_oauth_link_state now db_now fresh owner hash expires_at (run before empty) ≡ ok made
    → all (spares hash expires_at) cs ≡ true
    → used < expires_at
    → all (creates_other hash) after ≡ true
    → ((consume_oauth_link_state used hash (run cs made)).1 ≡ some owner)
      × ((consume_oauth_link_state later hash
            (run after (consume_oauth_link_state used hash (run cs made)).0)).1
          ≡ none)
create-consume before cs after now db_now fresh owner hash expires_at made used later h spared early
      others =
    let d = run-IsDirectory before empty empty-IsDirectory in
    let dm =
      create-IsDirectory now db_now fresh owner hash expires_at (run before empty) made d h in
    let (user, p) =
      create-IsPending now db_now fresh owner hash expires_at (run before empty) made d h in
    let brought =
      IsPending-consume hash user owner expires_at used (run cs made) early
        (run-keeps hash user owner expires_at cs made dm spared p) in
    let gone = consume-used used hash (run cs made) (run-IsDirectory cs made dm) brought in
    (
      brought,
      absent-consume later hash (run after (consume_oauth_link_state used hash (run cs made)).0)
          (run-absent hash after (consume_oauth_link_state used hash (run cs made)).0 others gone),
    )
