-- ===== src/Platform.antt =====
-- What the program takes from its platform: the WHATWG URL parser (`new URL`, `toString`), the URL
-- test of the schema library, SHA-256, and the length of a text in UTF-16 units. Each is a field
-- of `Runtime`, which the modules that use it take as a parameter. The regular expressions of the
-- program are written out here.
use Prim.Native.Char.{code}
use meterkit.Prelude.{
  ℕ, String, ◌≡◌, Bool, true, false, ◌&&◌, ◌||◌, not, List, [], ◌∷◌, Option, none, some, ◌==◌, ltb,
  leb, nat_eq, length, all, if◌then◌else◌, arith,
}

-- The parts of a URL that the program reads.
pub record Url : Type 0 where
  pub protocol : String
  pub username : String
  pub password : String
  pub hostname : String
  pub port : String
  pub pathname : String
  pub search : String
  pub hash : String

pub record Runtime : Type 0 where
  pub parse_url : String → Option Url
  pub print_url : Url → String
  -- The setter `url.pathname = …`, which normalises the path.
  pub set_pathname : Url → String → Url
  pub is_url : String → Bool
  pub units : String → ℕ
  pub sha256_hex : String → String

-- The code points of a text.
abbrev pub codes : String → List ℕ
codes String.[] = []
codes (String.◌∷◌ c s) = code c ∷ codes s

abbrev pub in_range : ℕ → ℕ → ℕ → Bool
in_range lo hi c = leb lo c && leb c hi

-- [1-9A-HJ-NP-Za-km-z]
unfoldable pub is_base58 : ℕ → Bool
is_base58 c =
    in_range b'1' b'9' c
    || in_range b'A' b'H' c
    || in_range b'J' b'N' c
    || in_range b'P' b'Z' c
    || in_range b'a' b'k' c
    || in_range b'm' b'z' c

-- /^[1-9A-HJ-NP-Za-km-z]{32,44}$/
unfoldable pub is_solana_address : String → Bool
unfolding is_base58
is_solana_address s =
    leb 32 (length (codes s)) && leb (length (codes s)) 44 && all is_base58 (codes s)

-- /^[1-9A-HJ-NP-Za-km-z]{64,88}$/
unfoldable pub is_solana_transaction : String → Bool
unfolding is_base58
is_solana_transaction s =
    leb 64 (length (codes s)) && leb (length (codes s)) 88 && all is_base58 (codes s)

-- A string field that is absent, null or empty is falsy.
abbrev pub is_falsy : Option String → Bool
is_falsy none = true
is_falsy (some s) = s == ""

abbrev pub is_truthy : Option String → Bool
is_truthy s = not (is_falsy s)

-- `...(s ? { field: s } : {})`: the empty text is left out.
abbrev pub truthy : Option String → Option String
truthy none = none
truthy (some s) = if s == "" then none else some s

abbrev pub all_some {ℓ} : {A : Type ℓ} → (A → Bool) → Option A → Bool
all_some p none = true
all_some p (some a) = p a

-- A digest with its prefix: /^sha256:[0-9a-f]{n}$/.
abbrev pub is_hex : ℕ → Bool
is_hex c = in_range b'0' b'9' c || in_range b'a' b'f' c

abbrev drop_prefix : List ℕ → List ℕ → Option (List ℕ)
drop_prefix [] cs = some cs
drop_prefix (p ∷ ps) [] = none
drop_prefix (p ∷ ps) (c ∷ cs) = let rest = drop_prefix ps cs in if nat_eq p c then rest else none

abbrev is_digits : ℕ → Option (List ℕ) → Bool
is_digits n none = false
is_digits n (some cs) = nat_eq (length cs) n && all is_hex cs

unfoldable pub is_digest : ℕ → String → Bool
is_digest n s = is_digits n (drop_prefix (codes "sha256:") (codes s))

abbrev pub solana_devnet : String
solana_devnet = "solana:EtWTRABZaYq6iMfeYKouRu166VU2xqa1"

abbrev pub subscriptions_program : String
subscriptions_program = "De1egAFMkMWZSN5rYXRj9CAdheBamobVNubTsi9avR44"

-- `s.replace(/\/+$/, "")`.
unfoldable pub strip_slashes : String → String
strip_slashes String.[] = String.[]
strip_slashes (String.◌∷◌ c s) =
    let rest = strip_slashes s in
    if nat_eq (code c) b'/' && rest == "" then String.[] else String.◌∷◌ c rest

-- What `normalizeResource` and `normalizeResourceScope` do after `new URL`: none where they refuse
-- the URL.
unfoldable pub normalized : Runtime → Url → Option String
unfolding strip_slashes
normalized rt url =
    if not (url.protocol == "http:" || url.protocol == "https:")
      || not (url.username == "")
      || not (url.password == "")
      || not (url.hash == "")
    then none
    else some (
        rt.print_url (
          if ltb 1 (rt.units url.pathname)
          then rt.set_pathname url (strip_slashes url.pathname)
          else url))

-- `normalizeResourceScope`: none where it throws.
unfoldable pub normalize_resource_scope : Runtime → String → Option String
unfolding normalized
normalize_resource_scope rt raw = elim (rt.parse_url raw) [
  | none ↦ none
  | some url ↦ normalized rt url
]

abbrev or_empty : Option String → String
or_empty none = ""
or_empty (some s) = s

-- `normalizeResource`: the empty text in place of an error.
unfoldable pub normalize_resource : Runtime → String → String
unfolding normalize_resource_scope
normalize_resource rt raw = or_empty (normalize_resource_scope rt raw)

pub normalize_resource-scope :
    (rt : Runtime) (raw : String) {s : String}
    → normalize_resource_scope rt raw ≡ some s
    → normalize_resource rt raw ≡ s
unfolding normalize_resource
normalize_resource-scope rt raw h = ground (arith, h)
