-- ===== src/Identities.antt =====
-- Linked identities: the tables of packages/database/migrations/006_linked_identities.sql, and the operations of
-- packages/database/src/index.ts on them. A function is one transaction: an error leaves the tables as they were.
-- `new Date()` of the server and `now()` of the database are two arguments, and the id of a new user is one.
pub mod Keeping
pub mod Linking
pub mod Pending
pub mod Once
pub mod Endpoints
pub mod Answering
pub mod Github
pub mod Tests
use meterkit.Prelude.{
  ℕ, String, Bool, true, false, not, ◌&&◌, ◌||◌, Option, none, some, List, [], ◌∷◌, ◌==◌, ◌=/=◌,
  ltb, leb, nat_eq, length, any, all, find, filter, if◌then◌else◌, modify_where, mem, Result, ok,
  err, ◌>>=◌, ◌>>◌, reject_if, and_then,
}
use meterkit.Platform.{codes, in_range, is_hex}
use meterkit.Policies.{is_alphanumeric}

-- A row of `user_wallets`.
pub record UserWallet : Type 0 where
  pub user_id : String
  pub wallet : String

-- `GitHubIdentityRecord`.
pub record GitHubIdentity : Type 0 where
  pub subject : String
  pub login : String
  pub avatar_url : Option String
  pub linked_at : ℕ

-- A row of `linked_identities`, whose provider is 'github'.
pub record LinkedIdentity : Type 0 where
  pub user_id : String
  pub identity : GitHubIdentity

-- A row of `oauth_link_states`.
pub record LinkState : Type 0 where
  pub state_hash : String
  pub user_id : String
  pub expires_at : ℕ

pub record Directory : Type 0 where
  pub users : List String
  pub user_wallets : List UserWallet
  pub linked_identities : List LinkedIdentity
  pub link_states : List LinkState

pub data IdentityError : Type 0 where
  oauth_link_state_invalid github_identity_invalid github_identity_already_linked : IdentityError
  unique_violation check_violation : IdentityError

abbrev pub add_user : String → String → Directory → Directory
add_user fresh wallet db = record db {
  users = fresh ∷ db.users;
  user_wallets = record { user_id = fresh; wallet = wallet } ∷ db.user_wallets;
}

abbrev pub user_or_new :
    String → String → Directory → Option UserWallet → Result IdentityError (Directory × String)
user_or_new fresh wallet db (some w) = ok (db, w.user_id)
user_or_new fresh wallet db none = do
  reject_if (mem fresh db.users) unique_violation
  ok (add_user fresh wallet db, fresh)

-- `ensureUserForWallet`: the directory, which has a user for the wallet, and that user's id.
unfoldable pub ensure_user_for_wallet :
    String → String → Directory → Result IdentityError (Directory × String)
ensure_user_for_wallet fresh wallet db =
    user_or_new fresh wallet db (find (λ w. w.wallet == wallet) db.user_wallets)

-- /^[0-9a-f]{64}$/
unfoldable pub is_state_hash : String → Bool
is_state_hash s = nat_eq (length (codes s)) 64 && all is_hex (codes s)

abbrev pub has_state : String → Directory → Bool
has_state state_hash db = any (λ s. s.state_hash == state_hash) db.link_states

-- `createOAuthLinkState`.
unfoldable pub create_oauth_link_state :
    (now db_now : ℕ) (fresh owner_wallet state_hash : String) (expires_at : ℕ)
    → Directory
    → Result IdentityError Directory
unfolding ensure_user_for_wallet is_state_hash
create_oauth_link_state now db_now fresh owner_wallet state_hash expires_at db = do
  reject_if (not (is_state_hash state_hash) || leb expires_at now) oauth_link_state_invalid
  user ← ensure_user_for_wallet fresh owner_wallet db
  reject_if (leb expires_at db_now) check_violation
  reject_if (has_state state_hash user.0) unique_violation
  ok (record user.0 {
    link_states =
        record { state_hash = state_hash; user_id = user.1; expires_at = expires_at }
        ∷ user.0.link_states;
  })

-- state.state_hash=$1 AND state.expires_at>now()
abbrev pub is_usable : ℕ → String → LinkState → Bool
is_usable now state_hash s = s.state_hash == state_hash && ltb now s.expires_at

unfoldable pub wallet_of_user : String → Directory → Option UserWallet
wallet_of_user user_id db = find (λ w. w.user_id == user_id) db.user_wallets

-- DELETE … USING user_wallets … RETURNING wallet.wallet, of one state.
abbrev taken : ℕ → String → Directory → Option UserWallet → Directory × Option String
taken now state_hash db none = (db, none)
taken now state_hash db (some w) = (
  record db { link_states = filter (λ s. not (is_usable now state_hash s)) db.link_states },
  some w.wallet,
)

-- `consumeOAuthLinkState`.
unfoldable pub consume_oauth_link_state : ℕ → String → Directory → Directory × Option String
unfolding wallet_of_user
consume_oauth_link_state now state_hash db =
    taken now state_hash db
      (and_then (find (is_usable now state_hash) db.link_states) (λ s. wallet_of_user s.user_id db))

-- /^\d+$/
abbrev pub is_decimal : String → Bool
is_decimal s = ltb 0 (length (codes s)) && all (in_range b'0' b'9') (codes s)

abbrev pub is_login_char : ℕ → Bool
is_login_char c = is_alphanumeric c || in_range b'A' b'Z' c || nat_eq c b'-'

-- /^[A-Za-z0-9-]{1,39}$/
unfoldable pub is_login : String → Bool
is_login s = leb 1 (length (codes s)) && leb (length (codes s)) 39 && all is_login_char (codes s)

unfoldable pub is_identity : GitHubIdentity → Bool
unfolding is_login
is_identity i = is_decimal i.subject && is_login i.login

-- PRIMARY KEY (provider, provider_subject), for a row of this user.
unfoldable pub is_subject_taken : String → GitHubIdentity → List LinkedIdentity → Bool
is_subject_taken user_id identity rows =
    any (λ r. r.identity.subject == identity.subject && r.user_id =/= user_id) rows

-- INSERT … ON CONFLICT (user_id,provider) DO UPDATE.
unfoldable pub upsert_identity :
    String → GitHubIdentity → List LinkedIdentity → Result IdentityError (List LinkedIdentity)
unfolding is_subject_taken
upsert_identity user_id identity rows = do
  reject_if (is_subject_taken user_id identity rows) unique_violation
  ok (
      if any (λ r. r.user_id == user_id) rows
      then modify_where (λ r. r.user_id == user_id) (λ r. record r { identity = identity }) rows
      else record { user_id = user_id; identity = identity } ∷ rows)

-- `if (isUniqueViolation(error)) throw new Error("GITHUB_IDENTITY_ALREADY_LINKED")`.
abbrev to_thrown : IdentityError → IdentityError
to_thrown unique_violation = github_identity_already_linked
to_thrown e = e

abbrev pub rethrow {ℓ} : {A : Type ℓ} → Result IdentityError A → Result IdentityError A
rethrow (ok a) = ok a
rethrow (err e) = err (to_thrown e)

-- The transaction of `linkGitHubIdentity`.
unfoldable pub write_identity :
    String → String → GitHubIdentity → Directory → Result IdentityError Directory
unfolding ensure_user_for_wallet upsert_identity
write_identity fresh owner_wallet identity db = do
  user ← ensure_user_for_wallet fresh owner_wallet db
  rows ← upsert_identity user.1 identity user.0.linked_identities
  ok (record user.0 { linked_identities = rows })

-- `linkGitHubIdentity`.
unfoldable pub link_github_identity :
    String → String → GitHubIdentity → Directory → Result IdentityError Directory
unfolding is_identity write_identity
link_github_identity fresh owner_wallet identity db = do
  reject_if (not (is_identity identity)) github_identity_invalid
  rethrow (write_identity fresh owner_wallet identity db)

-- `getGitHubIdentity`.
unfoldable pub get_github_identity : String → Directory → Option GitHubIdentity
get_github_identity owner_wallet db =
    and_then (find (λ w. w.wallet == owner_wallet) db.user_wallets) (λ w.
      and_then (find (λ r. r.user_id == w.user_id) db.linked_identities) (λ r. some r.identity))

-- DELETE FROM oauth_link_states WHERE expires_at <= $1, of `cleanupExpired`.
unfoldable pub clean_link_states : ℕ → Directory → Directory
clean_link_states now db = record db {
  link_states = filter (λ s. not (leb s.expires_at now)) db.link_states;
}

-- The calls that write the tables, with the clocks and the ids that they see.
pub data TableCall : Type 0 where
  create_state :
      (now db_now : ℕ) (fresh owner_wallet state_hash : String) (expires_at : ℕ) → TableCall
  consume_state : ℕ → String → TableCall
  link_identity : String → String → GitHubIdentity → TableCall
  clean_up : ℕ → TableCall

abbrev pub kept : Directory → Result IdentityError Directory → Directory
kept db (ok db') = db'
kept db (err e) = db

unfoldable pub call : TableCall → Directory → Directory
unfolding create_oauth_link_state consume_oauth_link_state link_github_identity clean_link_states
call (create_state now db_now fresh owner hash expires_at) db =
    kept db (create_oauth_link_state now db_now fresh owner hash expires_at db)
call (consume_state now hash) db = (consume_oauth_link_state now hash db).0
call (link_identity fresh owner identity) db =
    kept db (link_github_identity fresh owner identity db)
call (clean_up now) db = clean_link_states now db

unfoldable pub run : List TableCall → Directory → Directory
unfolding call
run [] db = db
run (c ∷ cs) db = run cs (call c db)
