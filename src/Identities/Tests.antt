-- ===== src/Identities/Tests.antt =====
-- Runs of the identity tables and of their endpoints at concrete inputs.
use meterkit.Prelude.{ℕ, String, ◌≡◌, refl, true, none, some, List, [], ◌∷◌, ok, err, arith}
use meterkit.Platform.{Runtime}
use meterkit.Authorization.Tests.{platform, agent, wallet}
use meterkit.Identities.{
  GitHubIdentity, Directory, ensure_user_for_wallet, is_state_hash, create_oauth_link_state,
  consume_oauth_link_state, wallet_of_user, is_login, is_identity, is_subject_taken,
  upsert_identity, write_identity, link_github_identity, github_identity_already_linked,
  github_identity_invalid, get_github_identity, clean_link_states, TableCall, create_state,
  consume_state, link_identity, clean_up, call, run,
}
use meterkit.Identities.Keeping.{empty}
use meterkit.Identities.Linking.{subject-owner}
use meterkit.Identities.Once.{create-consume}
use meterkit.Identities.Github.{
  OauthConfig, Github, value, null, malformed, accepted_token, accepted_profile,
  exchange_github_identity, github_profile_failed,
}
use meterkit.Identities.Endpoints.{
  linked, expired, link_confirmed, after_consumed, callback_with, github_callback,
  get_github_callback, error,
}
use meterkit.Identities.Answering.{IsAnswered, callback-IsAnswered}

abbrev hash : String
hash = "0123456789abcdef0123456789abcdef0123456789abcdef0123456789abcdef"

abbrev other_hash : String
other_hash = "f123456789abcdef0123456789abcdef0123456789abcdef0123456789abcdef"

abbrev octocat : GitHubIdentity
octocat = record { subject = "583231"; login = "octo-cat"; avatar_url = none; linked_at = 60 }

abbrev earlier : List TableCall
earlier =
    link_identity "user-1" wallet octocat ∷ create_state 10 10 "user-2" agent other_hash 70 ∷ []

abbrev since : List TableCall
since = clean_up 80 ∷ consume_state 60 other_hash ∷ link_identity "user-4" wallet octocat ∷ []

abbrev made : Directory
made = record {
  users = "user-2" ∷ "user-1" ∷ [];
  user_wallets =
      record { user_id = "user-2"; wallet = agent }
      ∷ record { user_id = "user-1"; wallet = wallet }
      ∷ [];
  linked_identities = record { user_id = "user-1"; identity = octocat } ∷ [];
  link_states =
      record { state_hash = hash; user_id = "user-2"; expires_at = 90 }
      ∷ record { state_hash = other_hash; user_id = "user-2"; expires_at = 70 }
      ∷ [];
}

made_eq : create_oauth_link_state 20 20 "user-3" agent hash 90 (run earlier empty) ≡ ok made
unfolding create_oauth_link_state is_state_hash ensure_user_for_wallet link_github_identity
    write_identity upsert_identity is_subject_taken is_identity is_login call run
made_eq = refl

create-consume_example :
    ((consume_oauth_link_state 85 hash (run since made)).1 ≡ some agent)
    × ((consume_oauth_link_state 86 hash
          (run earlier (consume_oauth_link_state 85 hash (run since made)).0)).1
        ≡ none)
create-consume_example =
    create-consume earlier since earlier 20 20 "user-3" agent hash 90 made 85 86 made_eq refl
      (omega arith) refl

octocat_linked : get_github_identity wallet (run earlier empty) ≡ some octocat
unfolding create_oauth_link_state is_state_hash ensure_user_for_wallet link_github_identity
    write_identity upsert_identity is_subject_taken is_identity is_login call run
    get_github_identity
octocat_linked = refl

subject-owner_example : wallet ≡ wallet
subject-owner_example =
    subject-owner earlier wallet wallet octocat octocat octocat_linked octocat_linked refl

-- The account of one wallet is refused to another one.
taken_subject :
    link_github_identity "user-9" agent octocat (run earlier empty)
    ≡ err github_identity_already_linked
unfolding create_oauth_link_state is_state_hash ensure_user_for_wallet link_github_identity
    write_identity upsert_identity is_subject_taken is_identity is_login call run
taken_subject = refl

bad_login :
    link_github_identity "user-9" agent (record octocat { login = "a_b" }) empty
    ≡ err github_identity_invalid
unfolding link_github_identity is_identity is_login
bad_login = refl

-- A platform whose digest of every text is the hash.
abbrev hashing : Runtime
hashing = record platform { sha256_hex = λ s. hash; units = λ s. 30 }

abbrev oauth : OauthConfig
oauth = record {
  client_id = "id";
  client_secret = "secret";
  callback_url = "https://gateway/callback";
}

abbrev print_one : ℕ → String
print_one n = "583232"

abbrev github : Github
github = record {
  token = λ c code. some (record { succeeded = true; body = value "a token of twenty signs" });
  profile = λ t. some (record {
    succeeded = true;
    body = record { id = value 583_232; login = value "hubot"; avatar_url = null };
  });
  print = print_one;
}

callback_run :
    (github_callback hashing github
      (some oauth)
      85
      85
      "user-9"
      (some "code")
      (some "state")
      since
      made).1
    ≡ linked
unfolding github_callback callback_with after_consumed link_confirmed exchange_github_identity
    accepted_token accepted_profile consume_oauth_link_state wallet_of_user create_oauth_link_state
    is_state_hash ensure_user_for_wallet link_github_identity write_identity upsert_identity
    is_subject_taken is_identity is_login call run clean_link_states
callback_run = refl

-- A state that is over.
callback_late :
    github_callback hashing github
      (some oauth)
      90
      90
      "user-9"
      (some "code")
      (some "state")
      since
      made
    ≡ (made, expired)
unfolding github_callback callback_with after_consumed consume_oauth_link_state wallet_of_user
callback_late = refl

-- A profile whose picture is no text.
bad_profile :
    exchange_github_identity hashing
      (record github {
        profile = λ t. some (record {
          succeeded = true;
          body = record { id = value 583_232; login = value "hubot"; avatar_url = malformed };
        });
      })
      oauth
      "code"
      85
    ≡ err github_profile_failed
unfolding exchange_github_identity accepted_token accepted_profile is_login
bad_profile = refl

callback-IsAnswered_example :
    IsAnswered hashing github 85 85 "user-9" (some "code") (some "state") since made (some oauth) (
      github_callback hashing github
        (some oauth)
        85
        85
        "user-9"
        (some "code")
        (some "state")
        since
        made)
callback-IsAnswered_example =
    callback-IsAnswered hashing github 85 85 "user-9" (some "code") (some "state") since made
      (some oauth)

no_database :
    get_github_callback hashing github
      (some oauth)
      85
      85
      "user-9"
      (some "code")
      (some "state")
      since
      none
    ≡ (none, error)
unfolding get_github_callback
no_database = refl
