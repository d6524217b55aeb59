-- ===== src/Upstream/Fetching.antt =====
-- What apps/gateway/src/upstream.ts fetches and reads.
use meterkit.Prelude.{
  ℕ, ◌+◌, ◌≤◌, String, ◌≡◌, ◌∙◌, subst, sym, refl, ap, true, false, not, ◌==◌, leb, ltb, length,
  any, Option, none, some, List, [], ◌∷◌, ◌++◌, if◌then◌else◌, Result, ok, err, Bool-cases, inl,
  inr, arith, eq_iff, bind-ok, or_throw-ok, reject_if-ok, not-false,
}
use meterkit.Platform.{Runtime, Url}
use meterkit.Upstream.{
  Texts, UpstreamError, invalid_url, upstream_not_allowed, request_failed,
  upstream_content_type_rejected, upstream_response_too_large, is_allowed, assert_allowed_upstream,
  read_from, read_bounded, Response, Upstream, max_upstream_bytes, is_json, media_type, with_query,
  first_part, split_on, is_too_long, declared_length, fetch_allowed_upstream,
}

-- The chunks as one.
abbrev pub concat : List (List ℕ) → List ℕ
concat [] = []
concat (c ∷ cs) = c ++ concat cs

length-append : (xs ys : List ℕ) → length (xs ++ ys) ≡ length xs + length ys
length-append [] ys = omega arith
length-append (x ∷ xs) ys = omega (arith, length-append xs ys)

append_assoc : (xs ys zs : List ℕ) → (xs ++ ys) ++ zs ≡ xs ++ (ys ++ zs)
append_assoc [] ys zs = refl
append_assoc (x ∷ xs) ys zs = ap (λ l. x ∷ l) (append_assoc xs ys zs)

append_nil : (xs : List ℕ) → xs ++ [] ≡ xs
append_nil [] = refl
append_nil (x ∷ xs) = ap (λ l. x ∷ l) (append_nil xs)

read_from-concat :
    (limit len : ℕ) (output : List ℕ) (chunks : List (List ℕ))
    → len ≤ limit
    → read_from limit len output chunks ≡ (
        if leb (len + length (concat chunks)) limit
        then ok (output ++ concat chunks)
        else err upstream_response_too_large)
unfolding read_from
read_from-concat limit len output [] h = ground (arith, append_nil output, h)
read_from-concat limit len output (c ∷ cs) h = elim (Bool-cases (ltb limit (len + length c))) [
  | inl e ↦ rw e (ground (arith, length-append c (concat cs), e))
  | inr e ↦
      let ih = read_from-concat limit (len + length c) (output ++ c) cs (ground (arith, e)) in
      let sum : len + length c + length (concat cs) ≡ len + length (c ++ concat cs) =
        omega (arith, length-append c (concat cs)) in
      rw e (
        ih
        ∙ ap
            (λ n.
              if leb n limit
              then ok ((output ++ c) ++ concat cs)
              else err upstream_response_too_large)
            sum
        ∙ ap
            (λ l.
              if leb (len + length (c ++ concat cs)) limit
              then ok l
              else err upstream_response_too_large)
            (append_assoc output c (concat cs)))
]

-- `readBounded` gives the chunks as one where together they are within the limit, and fails in every other
-- case.
pub read_bounded-concat :
    (chunks : List (List ℕ)) (limit : ℕ)
    → read_bounded (some chunks) limit ≡ (
        if leb (length (concat chunks)) limit
        then ok (concat chunks)
        else err upstream_response_too_large)
unfolding read_bounded
read_bounded-concat chunks limit =
    read_from-concat limit 0 [] chunks (omega arith)
    ∙ ap (λ n. if leb n limit then ok (concat chunks) else err upstream_response_too_large)
        (omega arith)

-- What a body that was read fits in.
read_bounded-within :
    (body : Option (List (List ℕ))) (limit : ℕ) (bytes : List ℕ)
    → read_bounded body limit ≡ ok bytes
    → length bytes ≤ limit
read_bounded-within none limit bytes h =
    unfold read_bounded in let nil : bytes ≡ [] = cc h in rw nil (omega arith)
read_bounded-within (some chunks) limit bytes h =
    elim (Bool-cases (leb (length (concat chunks)) limit)) [
      | inl e ↦
          let whole : ◌≡◌ {A = Result UpstreamError (List ℕ)} (ok (concat chunks)) (ok bytes) =
            rw (read_bounded-concat chunks limit, e) at h in
          let same : concat chunks ≡ bytes = cc whole in rw (← same) (ground (arith, e))
      | inr e ↦ cc (rw (read_bounded-concat chunks limit, e) at h)
    ]

-- The bytes that a body consists of.
abbrev pub bytes_of : Option (List (List ℕ)) → List ℕ
bytes_of none = []
bytes_of (some chunks) = concat chunks

read_bounded-bytes :
    (body : Option (List (List ℕ))) (limit : ℕ) (bytes : List ℕ)
    → read_bounded body limit ≡ ok bytes
    → bytes ≡ bytes_of body
read_bounded-bytes none limit bytes h = unfold read_bounded in cc h
read_bounded-bytes (some chunks) limit bytes h =
    elim (Bool-cases (leb (length (concat chunks)) limit)) [
      | inl e ↦
          let whole : ◌≡◌ {A = Result UpstreamError (List ℕ)} (ok (concat chunks)) (ok bytes) =
            rw (read_bounded-concat chunks limit, e) at h in
          cc whole
      | inr e ↦ cc (rw (read_bounded-concat chunks limit, e) at h)
    ]

-- Two addresses that differ in their query at most.
pub record IsSameAddress (url fetched : Url) : Type 0 where
  pub protocol : fetched.protocol ≡ url.protocol
  pub username : fetched.username ≡ url.username
  pub password : fetched.password ≡ url.password
  pub hostname : fetched.hostname ≡ url.hostname
  pub port : fetched.port ≡ url.port
  pub pathname : fetched.pathname ≡ url.pathname
  pub hash : fetched.hash ≡ url.hash

with_query-IsSameAddress :
    (append : String → String × String → String) (qs : List (String × String)) (url : Url)
    → IsSameAddress url (with_query append qs url)
unfolding with_query
with_query-IsSameAddress append [] url = record {
  protocol = refl;
  username = refl;
  password = refl;
  hostname = refl;
  port = refl;
  pathname = refl;
  hash = refl;
}
with_query-IsSameAddress append (q ∷ qs) url =
    let same = with_query-IsSameAddress append qs (record url { search = append url.search q }) in
    record {
      protocol = same.protocol;
      username = same.username;
      password = same.password;
      hostname = same.hostname;
      port = same.port;
      pathname = same.pathname;
      hash = same.hash;
    }

module _ (texts : Texts) (rt : Runtime) (append : String → String × String → String)
    (request : Url → Option Response) where
  -- What was requested, and what of the answer is passed on.
  pub record IsFetched (client_query : List (String × String)) (upstream_url : String)
      (allowed_hosts : List String) (u : Upstream) : Type 0 where
    pub configured : Url
    pub url : Url
    pub response : Response
    pub parsed : rt.parse_url upstream_url ≡ some configured
    pub same_address : IsSameAddress configured url
    pub https : url.protocol ≡ "https:"
    pub no_username : url.username ≡ ""
    pub no_password : url.password ≡ ""
    pub no_port : url.port ≡ ""
    pub no_address : texts.is_ip (texts.to_lower url.hostname) ≡ false
    pub listed : any (λ h. h == texts.to_lower url.hostname) allowed_hosts ≡ true
    pub answered : request url ≡ some response
    pub json : media_type texts response.content_type ≡ some "application/json"
    pub status : u.status ≡ response.status
    pub body : u.body ≡ bytes_of response.body
    pub short : length u.body ≤ max_upstream_bytes
    pub source : u.source_url ≡ rt.print_url url

  is_json-media_type :
      (content_type : Option String)
      → is_json texts content_type ≡ true
      → media_type texts content_type ≡ some "application/json"
  is_json-media_type none h = cc h
  is_json-media_type (some s) h =
      ap some ((eq_iff (texts.trim (first_part (split_on b';' s))) "application/json").0 h)

  is_allowed-parts :
      (allowed_hosts : List String) (url : Url)
      → is_allowed texts allowed_hosts url ≡ true
      → (url.protocol ≡ "https:")
        × (url.username ≡ "")
        × (url.password ≡ "")
        × (url.port ≡ "")
        × (texts.is_ip (texts.to_lower url.hostname) ≡ false)
        × (any (λ h. h == texts.to_lower url.hostname) allowed_hosts ≡ true)
  unfolding is_allowed
  is_allowed-parts allowed_hosts url h = ground (
    arith,
    h,
    eq_iff url.protocol "https:",
    eq_iff url.username "",
    eq_iff url.password "",
    eq_iff url.port "",
  )

  assert_allowed-ok :
      (raw : String) (allowed_hosts : List String) (url : Url)
      → assert_allowed_upstream texts rt raw allowed_hosts ≡ ok url
      → (rt.parse_url raw ≡ some url) × (is_allowed texts allowed_hosts url ≡ true)
  unfolding assert_allowed_upstream
  assert_allowed-ok raw allowed_hosts url h =
      let (u, parsed, h₁) = or_throw-ok (rt.parse_url raw) invalid_url h in
      let (fine, h₂) =
        reject_if-ok (not (is_allowed texts allowed_hosts u)) upstream_not_allowed h₁ in
      let same : u ≡ url = cc h₂ in
      (
        parsed ∙ ap some same,
        subst (λ z. is_allowed texts allowed_hosts z ≡ true) same (not-false fine),
      )

  -- What the gateway passes on was fetched from the address that the product names, with no change to it but
  -- in its query: over HTTPS, without credentials or a port, at a host that is a name on the list and not
  -- an IP address. The answer is declared as application/json; its status and its whole body are passed on, and
  -- that body is at most 1000000 bytes.
  pub fetch-IsFetched :
      (client_query : List (String × String)) (upstream_url : String) (allowed_hosts : List String)
      (u : Upstream)
      → fetch_allowed_upstream texts rt append client_query request upstream_url allowed_hosts
        ≡ ok u
      → IsFetched client_query upstream_url allowed_hosts u
  unfolding fetch_allowed_upstream
  fetch-IsFetched client_query upstream_url allowed_hosts u h =
      let (configured, allowed, h₁) =
        bind-ok (assert_allowed_upstream texts rt upstream_url allowed_hosts) h in
      let url = with_query append client_query configured in
      let (response, answered, h₂) = or_throw-ok (request url) request_failed h₁ in
      let (json, h₃) =
        reject_if-ok (not (is_json texts response.content_type)) upstream_content_type_rejected
          h₂ in
      let (_, h₄) =
        reject_if-ok (is_too_long texts (declared_length texts response.content_length))
          upstream_response_too_large h₃ in
      let (body, read, h₅) = bind-ok (read_bounded response.body max_upstream_bytes) h₄ in
      let same : record {
        status = response.status;
        body = body;
        content_type = "application/json";
        source_url = rt.print_url url;
      }
          ≡ u =
        cc h₅ in
      let (parsed, fine) = assert_allowed-ok upstream_url allowed_hosts configured allowed in
      let (https, username, password, port, no_address, listed) =
        is_allowed-parts allowed_hosts configured fine in
      let address = with_query-IsSameAddress append client_query configured in
      let whole = read_bounded-bytes response.body max_upstream_bytes body read in
      record {
        configured = configured;
        url = url;
        response = response;
        parsed = parsed;
        same_address = address;
        https = address.protocol ∙ https;
        no_username = address.username ∙ username;
        no_password = address.password ∙ password;
        no_port = address.port ∙ port;
        no_address = rw (address.hostname) no_address;
        listed = rw (address.hostname) listed;
        answered = answered;
        json = is_json-media_type response.content_type (not-false json);
        status = ap (λ z. z.status) (sym same);
        body = ap (λ z. z.body) (sym same) ∙ whole;
        short =
            subst (λ z. length z.body ≤ max_upstream_bytes) same
              (read_bounded-within response.body max_upstream_bytes body read);
        source = ap (λ z. z.source_url) (sym same);
      }
