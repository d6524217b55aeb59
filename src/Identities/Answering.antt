-- ===== src/Identities/Answering.antt =====
-- The callback: what it links, and that it changes nothing else.
use meterkit.Prelude.{
  ℕ, String, ◌≡◌, refl, ◌⊎◌, inl, inr, true, Option, none, some, List, [], ◌∷◌, ◌==◌, eq_iff,
  eq_refl, find, find-mem, mem, Bool-cases, Option-cases, Result-cases, ok, arith,
}
use meterkit.Platform.{Runtime}
use meterkit.Identities.{
  GitHubIdentity, LinkedIdentity, Directory, ensure_user_for_wallet, upsert_identity,
  consume_oauth_link_state, link_github_identity, get_github_identity, TableCall, run,
}
use meterkit.Identities.Keeping.{ensure_user-cases, consume-cases, linked_users}
use meterkit.Identities.Linking.{with_identity, relinked, upsert-cases, link-cases}
use meterkit.Identities.Github.{OauthConfig, Github, exchange_github_identity}
use meterkit.Identities.Endpoints.{
  Redirect, error, expired, linked, link_confirmed, after_consumed, query_of, github_callback,
  callback_with,
}

-- The row of the wallet names the user.
ensure_user-wallet :
    (fresh owner : String) (db db' : Directory) (user : String)
    → ensure_user_for_wallet fresh owner db ≡ ok (db', user)
    → find (λ w. w.wallet == owner) db'.user_wallets
      ≡ some (record { user_id = user; wallet = owner })
ensure_user-wallet fresh owner db db' user h = elim (ensure_user-cases fresh owner db db' user h) [
  | inl (w, e, same, u) ↦
      let named = (find-mem (λ w. w.wallet) owner db.user_wallets e).0 in
      rw (← same, ← u, e) (cc named)
  | inr (e, new, same, u) ↦ rw (← same, ← u, eq_refl owner) refl
]

find-relinked :
    (user : String) (identity : GitHubIdentity) (rows : List LinkedIdentity)
    → mem user (linked_users rows) ≡ true
    → (r : LinkedIdentity) × (find (λ r. r.user_id == user) (relinked user identity rows) ≡ some r)
      × (r.identity ≡ identity)
find-relinked user identity [] h = cc
find-relinked user identity (r ∷ rows) h = elim (Bool-cases (r.user_id == user)) [
  | inl e ↦ (with_identity identity r, rw (e, e) refl, refl)
  | inr e ↦
      let (q, f, same) =
        find-relinked user identity rows
          (ground (arith, e, eq_iff r.user_id user, eq_iff user r.user_id)) in
      (q, rw (e, e) f, same)
]

upsert-finds :
    (user : String) (identity : GitHubIdentity) (rows rows' : List LinkedIdentity)
    → upsert_identity user identity rows ≡ ok rows'
    → (r : LinkedIdentity) × (find (λ r. r.user_id == user) rows' ≡ some r)
      × (r.identity ≡ identity)
upsert-finds user identity rows rows' h = elim (upsert-cases user identity rows rows' h).1 [
  | inl (there, same) ↦ rw same (find-relinked user identity rows there)
  | inr (absent, same) ↦
      (record { user_id = user; identity = identity }, rw (same, eq_refl user) refl, refl)
]

-- A link that succeeds is what the wallet gets.
pub link-get :
    (fresh owner : String) (identity : GitHubIdentity) (db db' : Directory)
    → link_github_identity fresh owner identity db ≡ ok db'
    → get_github_identity owner db' ≡ some identity
unfolding get_github_identity
link-get fresh owner identity db db' h =
    let (between, user, rows, e, f, same) = link-cases fresh owner identity db db' h in
    let wallet = ensure_user-wallet fresh owner db between user e in
    let (r, g, is) = upsert-finds user identity between.linked_identities rows f in
    rw (same, wallet, g, is) refl

module _ (rt : Runtime) (github : Github) (now db_now : ℕ) (fresh : String)
    (code state : Option String) (meanwhile : List TableCall) (db : Directory) where
  -- What a redirect says of the state, of GitHub and of the tables that it leaves.
  unfoldable pub IsAnswered : Option OauthConfig → Directory × Redirect → Type 0
  IsAnswered oauth (db', linked) =
      (config : OauthConfig) × (query : String × String) × (owner : String)
      × (identity : GitHubIdentity) × (oauth ≡ some config)
      × (query_of rt code state ≡ some query)
      × ((consume_oauth_link_state db_now (rt.sha256_hex query.1) db).1 ≡ some owner)
      × (exchange_github_identity rt github config query.0 now ≡ ok identity)
      × (get_github_identity owner db' ≡ some identity)
  IsAnswered oauth (db', expired) =
      (query : String × String) × (query_of rt code state ≡ some query)
      × ((((consume_oauth_link_state db_now (rt.sha256_hex query.1) db).1 ≡ none) × (db' ≡ db))
          ⊎ (((consume_oauth_link_state db_now (rt.sha256_hex query.1) db).1 ≡ some "")
              × (db' ≡ (consume_oauth_link_state db_now (rt.sha256_hex query.1) db).0)))
  IsAnswered oauth (db', error) =
      (db' ≡ db)
      ⊎ ((query : String × String) × (query_of rt code state ≡ some query)
          × (db' ≡ run meanwhile (consume_oauth_link_state db_now (rt.sha256_hex query.1) db).0))

  linked-IsAnswered :
      (config : OauthConfig) (query : String × String) (used : Directory) (owner : String)
      → query_of rt code state ≡ some query
      → consume_oauth_link_state db_now (rt.sha256_hex query.1) db ≡ (used, some owner)
      → IsAnswered (some config) (
          link_confirmed fresh owner
            (exchange_github_identity rt github config query.0 now)
            (run meanwhile used))
  unfolding IsAnswered link_confirmed
  linked-IsAnswered config query used owner q h =
      elim (Result-cases (exchange_github_identity rt github config query.0 now)) [
        | inr (e, f) ↦ rw f (inr (query, q, rw h refl))
        | inl (identity, f) ↦
            elim (Result-cases (link_github_identity fresh owner identity (run meanwhile used))) [
              | inr (e, g) ↦ rw (f, g) (inr (query, q, rw h refl))
              | inl (db', g) ↦
                  rw (f, g)
                    (
                      config,
                      query,
                      owner,
                      identity,
                      refl,
                      q,
                      rw h refl,
                      f,
                      link-get fresh owner identity (run meanwhile used) db' g,
                    )
            ]
      ]

  -- Whatever GitHub replies and whatever calls others make in between: a callback that answers `linked` had a usable
  -- state, got an account confirmed for its code, and the wallet that the state brought has that account; one that
  -- answers `expired` had a state that brings no wallet, and changed nothing, or one that brings the empty text, and
  -- did no more than use it; one that answers `error` changed nothing
  -- either, but for the calls of others and the state that it used.
  pub callback-IsAnswered :
      (oauth : Option OauthConfig)
      → IsAnswered oauth (github_callback rt github oauth now db_now fresh code state meanwhile db)
  unfolding IsAnswered github_callback callback_with after_consumed
  callback-IsAnswered none = inl refl
  callback-IsAnswered (some config) = elim (Option-cases (query_of rt code state)) [
    | inl e ↦ rw e (inl refl)
    | inr (query, e) ↦ elim (consume-cases db_now (rt.sha256_hex query.1) db) [
      | inl same ↦ rw (e, same) (query, e, inl (rw same refl, refl))
      | inr (s, w, f, g, same) ↦ elim (Bool-cases (w.wallet == "")) [
        | inl t ↦
            let empty_owner = (eq_iff w.wallet "").0 t in
            rw (e, same, t) (query, e, inr (rw (same, empty_owner) refl, rw same refl))
        | inr t ↦ rw (e, same, t) (linked-IsAnswered config query _ w.wallet e same)
      ]
    ]
  ]
