-- ===== src/Identities/Github.antt =====
-- What GitHub confirms: apps/gateway/src/github-auth.ts, and `githubOAuthConfig` of apps/gateway/src/server.ts. GitHub
-- is a parameter: what its two endpoints reply.
use Prim.Native.Char.{code}
use Prim.Native.String
use meterkit.Prelude.{
  ℕ, String, Bool, not, ◌&&◌, Option, none, some, List, [], ◌∷◌, ltb, leb, if◌then◌else◌, Result,
  ok, ◌>>=◌, or_throw, and_then,
}
use meterkit.Platform.{Runtime, truthy}
use meterkit.Identities.{GitHubIdentity, is_login}

pub record OauthConfig : Type 0 where
  pub client_id : String
  pub client_secret : String
  pub callback_url : String

-- `a ?? b`.
abbrev pub given_or : Option String → String → String
given_or none b = b
given_or (some a) b = a

-- `githubOAuthConfig`, of the three variables of the environment.
unfoldable pub github_oauth_config :
    (client_id client_secret callback_url : Option String)
    → (public_gateway_url : String) → Option OauthConfig
github_oauth_config client_id client_secret callback_url public_gateway_url =
    and_then (truthy client_id) (λ id. and_then (truthy client_secret) (λ secret. some (record {
      client_id = id;
      client_secret = secret;
      callback_url =
          given_or callback_url (String.◌++◌ public_gateway_url "/v1/auth/github/callback");
    })))

-- `buildGitHubAuthorizationUrl`: the page, and its query.
unfoldable pub build_github_authorization_url :
    OauthConfig → String → String × List (String × String)
build_github_authorization_url oauth state = (
  "https://github.com/login/oauth/authorize",
  ("client_id", oauth.client_id)
      ∷ ("redirect_uri", oauth.callback_url)
      ∷ ("scope", "read:user")
      ∷ ("state", state)
      ∷ [],
)

-- A field of a JSON object.
pub data Field {ℓ} (A : Type ℓ) : Type ℓ where
  missing null malformed : Field A
  value : A → Field A

pub record Profile : Type 0 where
  pub id : Field ℕ
  pub login : Field String
  pub avatar_url : Field String

-- A reply whose body is JSON.
pub record JsonReply {ℓ} (A : Type ℓ) : Type ℓ where
  pub succeeded : Bool
  pub body : A

-- The two endpoints, where a call that rejects, or a body that is not JSON, is none; and `String(id)`.
pub record Github : Type 0 where
  pub token : OauthConfig → String → Option (JsonReply (Field String))
  pub profile : String → Option (JsonReply Profile)
  pub print : ℕ → String

pub data ExchangeError : Type 0 where
  request_failed github_token_exchange_failed github_profile_failed : ExchangeError

module _ (rt : Runtime) where
  -- `tokenSchema`, and `tokenResponse.ok`.
  unfoldable pub accepted_token : JsonReply (Field String) → Option String
  accepted_token r = elim r.body [
    | value t ↦ if r.succeeded && leb 20 (rt.units t) && leb (rt.units t) 512 then some t else none
    | _ ↦ none
  ]

  -- z.string().url().max(2_048).nullable().optional(), and `?? null`.
  abbrev pub avatar_of : Field String → Option (Option String)
  avatar_of missing = some none
  avatar_of null = some none
  avatar_of malformed = none
  avatar_of (value u) = if rt.is_url u && leb (rt.units u) 2_048 then some (some u) else none

  abbrev pub positive_of : Field ℕ → Option ℕ
  positive_of (value n) = if ltb 0 n then some n else none
  positive_of _ = none

  abbrev pub login_of : Field String → Option String
  login_of (value l) = if is_login l then some l else none
  login_of _ = none

  -- `profileSchema`, and `profileResponse.ok`.
  unfoldable pub accepted_profile : JsonReply Profile → Option (ℕ × String × Option String)
  accepted_profile r =
      if not r.succeeded
      then none
      else and_then (positive_of r.body.id) (λ id.
        and_then (login_of r.body.login)
          (λ login. and_then (avatar_of r.body.avatar_url) (λ avatar. some (id, login, avatar))))

  -- `exchangeGitHubIdentity`.
  unfoldable pub exchange_github_identity :
      Github → OauthConfig → String → ℕ → Result ExchangeError GitHubIdentity
  unfolding accepted_token accepted_profile
  exchange_github_identity github oauth code now = do
    token_reply ← or_throw (github.token oauth code) request_failed
    token ← or_throw (accepted_token token_reply) github_token_exchange_failed
    profile_reply ← or_throw (github.profile token) request_failed
    profile ← or_throw (accepted_profile profile_reply) github_profile_failed
    ok (record {
      subject = github.print profile.0;
      login = profile.1;
      avatar_url = profile.2;
      linked_at = now;
    })
