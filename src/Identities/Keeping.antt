-- ===== src/Identities/Keeping.antt =====
-- What every reachable directory satisfies: the keys of its tables are distinct, and a user has one wallet.
use meterkit.Prelude.{
  ℕ, String, ◌≡◌, refl, Bool, true, false, not, ◌||◌, none, some, List, [], ◌∷◌, map, ◌==◌, eq_iff,
  eq_refl, find, filter, any-mem, mem, Distinct, Distinct-filter, All, All-impl, ◌⊎◌, arith,
  Option-cases, inl, inr, ok, reject_if-ok, bind-ok, leb,
}
use meterkit.Identities.{
  UserWallet, LinkedIdentity, LinkState, Directory, add_user, user_or_new, unique_violation,
  check_violation, oauth_link_state_invalid, is_state_hash, ensure_user_for_wallet,
  create_oauth_link_state, has_state, is_usable, wallet_of_user, consume_oauth_link_state,
}

abbrev pub wallets : List UserWallet → List String
wallets = map (λ w. w.wallet)

abbrev pub owners : List UserWallet → List String
owners = map (λ w. w.user_id)

abbrev pub subjects : List LinkedIdentity → List String
subjects = map (λ r. r.identity.subject)

abbrev pub linked_users : List LinkedIdentity → List String
linked_users = map (λ r. r.user_id)

abbrev pub hashes : List LinkState → List String
hashes = map (λ s. s.state_hash)

pub record IsDirectory (db : Directory) : Type 0 where
  pub wallets_distinct : Distinct (wallets db.user_wallets)
  pub owners_distinct : Distinct (owners db.user_wallets)
  pub owners_known : All (λ w. mem w.user_id db.users ≡ true) db.user_wallets
  pub subjects_distinct : Distinct (subjects db.linked_identities)
  pub linked_distinct : Distinct (linked_users db.linked_identities)
  pub hashes_distinct : Distinct (hashes db.link_states)

abbrev pub empty : Directory
empty = record { users = []; user_wallets = []; linked_identities = []; link_states = [] }

-- A user that is not known owns no wallet.
pub unknown_owner :
    (user : String) (known : List String) (ws : List UserWallet)
    → mem user known ≡ false
    → All (λ w. mem w.user_id known ≡ true) ws
    → mem user (owners ws) ≡ false
unknown_owner user known [] h all = refl
unknown_owner user known (w ∷ ws) h all =
    ground (arith, eq_iff user w.user_id, unknown_owner user known ws h all.1, all.0)

find-none-mem :
    (wallet : String) (ws : List UserWallet)
    → find (λ w. w.wallet == wallet) ws ≡ none
    → mem wallet (wallets ws) ≡ false
find-none-mem wallet [] h = refl
find-none-mem wallet (w ∷ ws) h =
    ground (arith, eq_iff wallet w.wallet, eq_iff w.wallet wallet, find-none-mem wallet ws)

-- What a user of a wallet is: there before, or added for it.
pub ensure_user-cases :
    (fresh wallet : String) (db db' : Directory) (user : String)
    → ensure_user_for_wallet fresh wallet db ≡ ok (db', user)
    → ((w : UserWallet) × (find (λ w. w.wallet == wallet) db.user_wallets ≡ some w)
        × (db ≡ db')
        × (w.user_id ≡ user))
      ⊎ ((find (λ w. w.wallet == wallet) db.user_wallets ≡ none)
          × (mem fresh db.users ≡ false)
          × (add_user fresh wallet db ≡ db')
          × (fresh ≡ user))
unfolding ensure_user_for_wallet
ensure_user-cases fresh wallet db db' user h =
    elim (Option-cases (find (λ w. w.wallet == wallet) db.user_wallets)) [
      | inr (w, e) ↦
          let same : user_or_new fresh wallet db (some w) ≡ ok (db', user) = rw e at h in
          inl (w, e, cc, cc)
      | inl e ↦
          let (new, done) = reject_if-ok (mem fresh db.users) unique_violation (rw e at h) in
          inr (e, new, cc, cc)
    ]

pub ensure_user-IsDirectory :
    (fresh wallet : String) (db db' : Directory) (user : String)
    → IsDirectory db
    → ensure_user_for_wallet fresh wallet db ≡ ok (db', user)
    → IsDirectory db'
ensure_user-IsDirectory fresh wallet db db' user d h =
    elim (ensure_user-cases fresh wallet db db' user h) [
      | inl (w, e, same, u) ↦ rw (← same) d
      | inr (e, new, same, u) ↦ rw (← same) (record {
        wallets_distinct = (find-none-mem wallet db.user_wallets e, d.wallets_distinct);
        owners_distinct =
            (unknown_owner fresh db.users db.user_wallets new d.owners_known, d.owners_distinct);
        owners_known = (
          ground (arith, eq_refl fresh),
          All-impl db.user_wallets (λ w k. ground (arith, k)) d.owners_known,
        );
        subjects_distinct = d.subjects_distinct;
        linked_distinct = d.linked_distinct;
        hashes_distinct = d.hashes_distinct;
      })
    ]

-- The directory with other states, or with other identities.
pub states-IsDirectory :
    (states : List LinkState) (db : Directory)
    → Distinct (hashes states)
    → IsDirectory db
    → IsDirectory (record db { link_states = states })
states-IsDirectory states db h d = record {
  wallets_distinct = d.wallets_distinct;
  owners_distinct = d.owners_distinct;
  owners_known = d.owners_known;
  subjects_distinct = d.subjects_distinct;
  linked_distinct = d.linked_distinct;
  hashes_distinct = h;
}

pub identities-IsDirectory :
    (rows : List LinkedIdentity) (db : Directory)
    → Distinct (subjects rows)
    → Distinct (linked_users rows)
    → IsDirectory db
    → IsDirectory (record db { linked_identities = rows })
identities-IsDirectory rows db h k d = record {
  wallets_distinct = d.wallets_distinct;
  owners_distinct = d.owners_distinct;
  owners_known = d.owners_known;
  subjects_distinct = h;
  linked_distinct = k;
  hashes_distinct = d.hashes_distinct;
}

-- What an INSERT of a state needs and leaves.
pub create-cases :
    (now db_now : ℕ) (fresh owner hash : String) (expires_at : ℕ) (db db' : Directory)
    → create_oauth_link_state now db_now fresh owner hash expires_at db ≡ ok db'
    → (between : Directory) × (user : String) × (ensure_user_for_wallet fresh owner db
        ≡ ok (between, user))
      × (has_state hash between ≡ false)
      × (db' ≡ record between {
        link_states =
            record { state_hash = hash; user_id = user; expires_at = expires_at }
            ∷ between.link_states;
      })
unfolding create_oauth_link_state
create-cases now db_now fresh owner hash expires_at db db' h =
    let (_, h1) =
      reject_if-ok (not (is_state_hash hash) || leb expires_at now) oauth_link_state_invalid h in
    let (user, e, h2) = bind-ok (ensure_user_for_wallet fresh owner db) h1 in
    let (_, h3) = reject_if-ok (leb expires_at db_now) check_violation h2 in
    let (free, h4) = reject_if-ok (has_state hash user.0) unique_violation h3 in
    (user.0, user.1, e, free, cc)

pub create-IsDirectory :
    (now db_now : ℕ) (fresh owner hash : String) (expires_at : ℕ) (db db' : Directory)
    → IsDirectory db
    → create_oauth_link_state now db_now fresh owner hash expires_at db ≡ ok db'
    → IsDirectory db'
create-IsDirectory now db_now fresh owner hash expires_at db db' d h =
    let (between, user, e, free, same) =
      create-cases now db_now fresh owner hash expires_at db db' h in
    let b = ensure_user-IsDirectory fresh owner db between user d e in
    rw same (
      states-IsDirectory
        (record { state_hash = hash; user_id = user; expires_at = expires_at }
          ∷ between.link_states)
        between
        (rw (any-mem (λ s. s.state_hash) hash between.link_states) at free, b.hashes_distinct) b)

-- The states that a filter leaves.
pub filter-IsDirectory :
    (p : LinkState → Bool) (db : Directory)
    → IsDirectory db
    → IsDirectory (record db { link_states = filter p db.link_states })
filter-IsDirectory p db d =
    states-IsDirectory (filter p db.link_states) db
      (Distinct-filter (λ s. s.state_hash) p db.link_states d.hashes_distinct) d

-- A call that consumes a state leaves the tables, or takes the state out.
pub consume-cases :
    (now : ℕ) (hash : String) (db : Directory)
    → (consume_oauth_link_state now hash db ≡ (db, none))
      ⊎ ((s : LinkState) × (w : UserWallet) × (find (is_usable now hash) db.link_states ≡ some s)
          × (wallet_of_user s.user_id db ≡ some w)
          × (consume_oauth_link_state now hash db ≡ (
            record db { link_states = filter (λ s. not (is_usable now hash s)) db.link_states },
            some w.wallet,
          )))
unfolding consume_oauth_link_state
consume-cases now hash db = elim (Option-cases (find (is_usable now hash) db.link_states)) [
  | inl e ↦ inl (rw e refl)
  | inr (s, e) ↦ elim (Option-cases (wallet_of_user s.user_id db)) [
    | inl f ↦ inl (rw (e, f) refl)
    | inr (w, f) ↦ inr (s, w, e, f, rw (e, f) refl)
  ]
]

pub consume-IsDirectory :
    (now : ℕ) (hash : String) (db : Directory)
    → IsDirectory db
    → IsDirectory (consume_oauth_link_state now hash db).0
consume-IsDirectory now hash db d = elim (consume-cases now hash db) [
  | inl same ↦ rw same d
  | inr (s, w, e, f, same) ↦ rw same (filter-IsDirectory (λ s. not (is_usable now hash s)) db d)
]
