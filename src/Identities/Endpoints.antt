-- ===== src/Identities/Endpoints.antt =====
-- The endpoints of apps/gateway/src/server.ts that link a GitHub account. Other calls may be made between the
-- request that consumes the state and the one that links the account.
use Prim.Native.Char.{code}
use meterkit.Prelude.{
  ℕ, ◌+◌, String, Bool, true, false, not, ◌&&◌, ◌||◌, Option, none, some, List, ◌==◌, ltb, nat_eq,
  if◌then◌else◌, Result, ok, err, and_then,
}
use meterkit.Platform.{Url, Runtime, truthy}
use meterkit.Identities.{
  GitHubIdentity, Directory, IdentityError, create_oauth_link_state, consume_oauth_link_state,
  link_github_identity, get_github_identity, TableCall, run,
}
use meterkit.Identities.Github.{
  OauthConfig, given_or, build_github_authorization_url, Github, ExchangeError,
  exchange_github_identity,
}

-- `githubOAuthConfig() !== null`.
abbrev is_configured : Option OauthConfig → Bool
is_configured none = false
is_configured (some c) = true

-- GET /v1/auth/github: none is the answer wallet_session_required. The owner is what `sessionOwner` gave.
unfoldable pub github_status :
    Option String → Option OauthConfig → Option Directory → Option (Bool × Option GitHubIdentity)
unfolding get_github_identity
github_status owner oauth product_store =
    and_then (truthy owner)
      (λ w. and_then product_store (λ db. some (is_configured oauth, get_github_identity w db)))

pub data LinkAnswer : Type 0 where
  wallet_session_required github_oauth_not_configured : LinkAnswer
  failed : IdentityError → LinkAnswer
  authorization_url : String × List (String × String) → LinkAnswer

-- `s.replace(/\/$/, "")`.
unfoldable pub strip_slash : String → String
strip_slash String.[] = String.[]
strip_slash (String.◌∷◌ c s) =
    let rest = strip_slash s in
    if nat_eq (code c) b'/' && s == "" then String.[] else String.◌∷◌ c rest

-- POST /v1/auth/github/link. The state is the text of 32 random bytes.
unfoldable pub link_github :
    Runtime
    → (now db_now : ℕ) (fresh state : String) → Option String
    → Option OauthConfig
    → Option Directory
    → Option Directory × LinkAnswer
unfolding build_github_authorization_url
link_github rt now db_now fresh state owner oauth none = (none, wallet_session_required)
link_github rt now db_now fresh state owner oauth (some db) = elim (truthy owner) [
  | none ↦ (some db, wallet_session_required)
  | some w ↦ elim oauth [
    | none ↦ (some db, github_oauth_not_configured)
    | some config ↦
        elim (create_oauth_link_state now db_now fresh w (rt.sha256_hex state) (now + 600_000) db) [
          | ok db' ↦ (some db', authorization_url (build_github_authorization_url config state))
          | err e ↦ (some db, failed e)
        ]
  ]
]

-- What `dashboardUrl` makes of a URL: none where it takes the default.
unfoldable pub dashboard_page : Runtime → Url → Option String
unfolding strip_slash
dashboard_page rt url =
    if not (url.protocol == "https:")
        && not (
            (url.hostname == "localhost" || url.hostname == "127.0.0.1") && url.protocol == "http:")
      || not (url.username == "")
      || not (url.password == "")
    then none
    else some (strip_slash (rt.print_url (record url { search = ""; hash = "" })))

-- `dashboardUrl`, of PUBLIC_DASHBOARD_URL: none where `new URL` throws.
unfoldable pub dashboard_url : Runtime → Option String → Option String
unfolding dashboard_page
dashboard_url rt public_dashboard_url =
    and_then (rt.parse_url (given_or public_dashboard_url "http://127.0.0.1:3100/dashboard"))
      (λ url. some (given_or (dashboard_page rt url) "http://127.0.0.1:3100/dashboard"))

-- The page that the callback redirects to: `?github=error`, `?github=expired` and `?github=linked`.
pub data Redirect : Type 0 where
  error expired linked : Redirect

abbrev pub to_redirect : Directory → Result IdentityError Directory → Directory × Redirect
to_redirect db (err e) = (db, error)
to_redirect db (ok db') = (db', linked)

-- The account that GitHub confirmed is linked; `catch` takes what either call throws.
unfoldable pub link_confirmed :
    String → String → Result ExchangeError GitHubIdentity → Directory → Directory × Redirect
link_confirmed fresh owner (err e) db = (db, error)
link_confirmed fresh owner (ok identity) db =
    to_redirect db (link_github_identity fresh owner identity db)

-- What the callback does with the owner that the state brought: the others' calls come between.
unfoldable pub after_consumed :
    Runtime
    → Github
    → OauthConfig
    → (now : ℕ) (fresh code : String) (meanwhile : List TableCall) → Directory × Option String
    → Directory × Redirect
unfolding link_confirmed exchange_github_identity
after_consumed rt github oauth now fresh code meanwhile (db, none) = (db, expired)
after_consumed rt github oauth now fresh code meanwhile (db, some owner) =
    if owner == ""
    then (db, expired)
    else link_confirmed fresh owner (exchange_github_identity rt github oauth code now)
        (run meanwhile db)

-- What the query gives: code.length > 512 and state.length > 128 are refused.
abbrev pub query_of : Runtime → Option String → Option String → Option (String × String)
query_of rt code state = and_then (truthy code) (λ c.
    and_then (truthy state)
      (λ s. if ltb 512 (rt.units c) || ltb 128 (rt.units s) then none else some (c, s)))

unfoldable pub callback_with :
    Runtime
    → Github
    → OauthConfig
    → (now db_now : ℕ) (fresh : String) (meanwhile : List TableCall) → Directory
    → Option (String × String)
    → Directory × Redirect
unfolding after_consumed
callback_with rt github oauth now db_now fresh meanwhile db none = (db, error)
callback_with rt github oauth now db_now fresh meanwhile db (some (code, state)) =
    after_consumed rt github oauth now fresh code meanwhile
      (consume_oauth_link_state db_now (rt.sha256_hex state) db)

-- What the callback does where the gateway has a database.
unfoldable pub github_callback :
    Runtime
    → Github
    → Option OauthConfig
    → (now db_now : ℕ) (fresh : String) (code state : Option String) (meanwhile : List TableCall)
    → Directory
    → Directory × Redirect
unfolding callback_with
github_callback rt github none now db_now fresh code state meanwhile db = (db, error)
github_callback rt github (some oauth) now db_now fresh code state meanwhile db =
    callback_with rt github oauth now db_now fresh meanwhile db (query_of rt code state)

-- GET /v1/auth/github/callback.
unfoldable pub get_github_callback :
    Runtime
    → Github
    → Option OauthConfig
    → (now db_now : ℕ) (fresh : String) (code state : Option String) (meanwhile : List TableCall)
    → Option Directory
    → Option Directory × Redirect
unfolding github_callback
get_github_callback rt github oauth now db_now fresh code state meanwhile none = (none, error)
get_github_callback rt github oauth now db_now fresh code state meanwhile (some db) =
    let answered = github_callback rt github oauth now db_now fresh code state meanwhile db in
    (some answered.0, answered.1)
