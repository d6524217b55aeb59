-- ===== src/Upstream.antt =====
-- apps/gateway/src/upstream.ts: which addresses the gateway fetches for a paid request, and how much of an
-- answer it reads. The response of `fetch` is a parameter, and so are the platform's lower case, its test of
-- an IP address, its trimming, its reading of a number and its writing of a query.
pub mod Fetching
pub mod Tests
use Prim.Native.Char.{code}
use Prim.Native.String
use meterkit.Prelude.{
  ℕ, ◌+◌, String, Bool, true, false, not, ◌&&◌, ◌||◌, ◌==◌, ltb, nat_eq, length, any, filter, map,
  Option, none, some, List, [], ◌∷◌, ◌++◌, if◌then◌else◌, Result, ok, err, ◌>>=◌, ◌>>◌, reject_if,
  or_throw,
}
use meterkit.Platform.{Runtime, Url}

pub record Texts : Type 0 where
  pub to_lower : String → String
  pub trim : String → String
  pub is_ip : String → Bool
  -- `Number(s)`; none for NaN and for what is not a natural number.
  pub to_number : String → Option ℕ

pub data UpstreamError : Type 0 where
  upstream_host_allowlist_empty invalid_url upstream_not_allowed request_failed : UpstreamError
  upstream_content_type_rejected upstream_response_too_large : UpstreamError

-- The parts of a text between the characters with the given number.
abbrev pub split_on : ℕ → String → List String
split_on d String.[] = String.[] ∷ []
split_on d (String.◌∷◌ c s) =
    let rest = split_on d s in if nat_eq (code c) d then String.[] ∷ rest else prepend c rest
  where
    prepend : Prim.Native.Char.Char → List String → List String
    prepend c [] = String.◌∷◌ c String.[] ∷ []
    prepend c (t ∷ ts) = String.◌∷◌ c t ∷ ts

abbrev pub first_part : List String → String
first_part [] = ""
first_part (s ∷ ss) = s

module _ (texts : Texts) where
  -- `parseUpstreamAllowlist`.
  unfoldable pub parse_upstream_allowlist : String → Result UpstreamError (List String)
  parse_upstream_allowlist value =
      non_empty (
        filter (λ s. not (s == ""))
          (map (λ s. texts.to_lower (texts.trim s)) (split_on b',' value)))
    where
      non_empty : List String → Result UpstreamError (List String)
      non_empty [] = err upstream_host_allowlist_empty
      non_empty (h ∷ hs) = ok (h ∷ hs)

  unfoldable pub is_allowed : List String → Url → Bool
  is_allowed allowed_hosts url =
      url.protocol == "https:"
      && url.username == ""
      && url.password == ""
      && url.hash == ""
      && url.port == ""
      && not (texts.is_ip (texts.to_lower url.hostname))
      && any (λ h. h == texts.to_lower url.hostname) allowed_hosts

  -- `assertAllowedUpstream`.
  unfoldable pub assert_allowed_upstream : Runtime → String → List String → Result UpstreamError Url
  unfolding is_allowed
  assert_allowed_upstream rt raw allowed_hosts = do
    url ← or_throw (rt.parse_url raw) invalid_url
    reject_if (not (is_allowed allowed_hosts url)) upstream_not_allowed
    ok url

-- `readBounded`: the chunks are kept until the limit is passed, and joined at the end.
unfoldable pub read_from : ℕ → ℕ → List ℕ → List (List ℕ) → Result UpstreamError (List ℕ)
read_from limit len output [] = ok output
read_from limit len output (chunk ∷ chunks) =
    let rest = read_from limit (len + length chunk) (output ++ chunk) chunks in
    if ltb limit (len + length chunk) then err upstream_response_too_large else rest

-- A missing body is an empty one.
unfoldable pub read_bounded : Option (List (List ℕ)) → ℕ → Result UpstreamError (List ℕ)
unfolding read_from
read_bounded none limit = ok []
read_bounded (some chunks) limit = read_from limit 0 [] chunks

-- What `fetch` answers.
pub record Response : Type 0 where
  pub status : ℕ
  pub content_type : Option String
  pub content_length : Option String
  pub body : Option (List (List ℕ))

pub record Upstream : Type 0 where
  pub status : ℕ
  pub body : List ℕ
  pub content_type : String
  pub source_url : String

abbrev pub max_upstream_bytes : ℕ
max_upstream_bytes = 1_000_000

-- The loop of `url.searchParams.append(key, value)`, which changes the query of the address only. `append`
-- is what the platform's serialisation makes of a query and one more pair.
unfoldable pub with_query : (String → String × String → String) → List (String × String) → Url → Url
with_query append [] url = url
with_query append (q ∷ qs) url = with_query append qs (record url { search = append url.search q })

module _ (texts : Texts) where
  -- `response.headers.get("content-type")?.split(";")[0]?.trim()`.
  abbrev pub media_type : Option String → Option String
  media_type none = none
  media_type (some s) = some (texts.trim (first_part (split_on b';' s)))

  abbrev pub is_json : Option String → Bool
  is_json content_type = or_empty (media_type content_type) == "application/json"
    where
      or_empty : Option String → String
      or_empty none = ""
      or_empty (some s) = s

  abbrev pub is_too_long : Option ℕ → Bool
  is_too_long none = false
  is_too_long (some n) = ltb max_upstream_bytes n

  abbrev pub declared_length : Option String → Option ℕ
  declared_length none = some 0
  declared_length (some s) = texts.to_number s

  -- `fetchAllowedUpstream`. `request` is `fetch`: none where it throws, as it does at a redirect or at the
  -- timeout.
  unfoldable pub fetch_allowed_upstream :
      Runtime
      → (append : String → String × String → String) → List (String × String)
      → (Url → Option Response)
      → String
      → List String
      → Result UpstreamError Upstream
  unfolding assert_allowed_upstream read_bounded with_query
  fetch_allowed_upstream rt append client_query request upstream_url allowed_hosts = do
    url ← assert_allowed_upstream texts rt upstream_url allowed_hosts
    response ← or_throw (request (with_query append client_query url)) request_failed
    reject_if (not (is_json response.content_type)) upstream_content_type_rejected
    reject_if (is_too_long (declared_length response.content_length)) upstream_response_too_large
    body ← read_bounded response.body max_upstream_bytes
    ok (record {
      status = response.status;
      body = body;
      content_type = "application/json";
      source_url = rt.print_url (with_query append client_query url);
    })
