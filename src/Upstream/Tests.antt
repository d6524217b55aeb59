-- ===== src/Upstream/Tests.antt =====
-- Runs of the upstream guard at concrete inputs.
use meterkit.Prelude.{ℕ, String, ◌≡◌, refl, false, Option, none, some, List, [], ◌∷◌, ok, err}
use meterkit.Platform.{Url}
use meterkit.Authorization.Tests.{platform}
use meterkit.Upstream.{
  Texts, upstream_not_allowed, upstream_response_too_large, parse_upstream_allowlist,
  assert_allowed_upstream, read_bounded, Response, Upstream, fetch_allowed_upstream,
}
use meterkit.Upstream.Fetching.{IsFetched, fetch-IsFetched}

abbrev pub texts : Texts
texts = record { to_lower = λ s. s; trim = λ s. s; is_ip = λ s. false; to_number = λ s. none }

abbrev reading : List (List ℕ)
reading = (1 ∷ 2 ∷ []) ∷ (3 ∷ []) ∷ []

upstream_test :
    (parse_upstream_allowlist texts "api,,b" ≡ ok ("api" ∷ "b" ∷ []))
    × (read_bounded (some reading) 3 ≡ ok (1 ∷ 2 ∷ 3 ∷ []))
    × (read_bounded (some reading) 2 ≡ err upstream_response_too_large)
    × (assert_allowed_upstream texts platform "https://api" ("other" ∷ [])
        ≡ err upstream_not_allowed)
unfolding parse_upstream_allowlist read_bounded assert_allowed_upstream
upstream_test = (refl, refl, refl, refl)

abbrev fetch : Url → Option Response
fetch url = some (record {
  status = 200;
  content_type = some "application/json;charset=utf-8";
  content_length = none;
  body = some reading;
})

-- A serialisation that keeps the value of the pair.
abbrev append : String → String × String → String
append search (key, value) = value

abbrev client_query : List (String × String)
client_query = ("city", "Lima") ∷ []

fetches :
    (u : Upstream) × (fetch_allowed_upstream texts platform append client_query fetch "https://api"
        ("api" ∷ [])
      ≡ ok u)
unfolding fetch_allowed_upstream
fetches = (_, refl)

fetch-IsFetched_example :
    IsFetched texts platform append fetch client_query "https://api" ("api" ∷ []) fetches.0
fetch-IsFetched_example =
    fetch-IsFetched texts platform append fetch client_query "https://api" ("api" ∷ []) fetches.0
      fetches.1
