-- ===== src/Gateway/Session.antt =====
-- The stores of the gateway and `sessionOwner` of apps/gateway/src/server.ts.
use Prim.Native.Char.{code}
use meterkit.Prelude.{
  ℕ, String, Bool, ◌&&◌, ◌||◌, nat_eq, length, all, Option, none, some, List, and_then,
  if◌then◌else◌,
}
use meterkit.Platform.{Runtime, codes, in_range, truthy}
use meterkit.Spend.{Ledger}
use meterkit.Products.{Catalogue, Session, get_session_owner}

-- What `PostgresStore` keeps for the handlers.
pub record Database : Type 0 where
  pub ledger : Ledger
  pub catalogue : Catalogue
  pub sessions : List Session

-- The text after a prefix; none where the text does not start with it.
unfoldable pub strip_prefix : String → String → Option String
strip_prefix String.[] s = some s
strip_prefix (String.◌∷◌ p ps) String.[] = none
strip_prefix (String.◌∷◌ p ps) (String.◌∷◌ c s) =
    let rest = strip_prefix ps s in if nat_eq (code p) (code c) then rest else none

-- [A-Za-z0-9_-]
abbrev pub is_token_char : ℕ → Bool
is_token_char c =
    in_range b'A' b'Z' c
    || in_range b'a' b'z' c
    || in_range b'0' b'9' c
    || nat_eq c b'_'
    || nat_eq c b'-'

-- /^[A-Za-z0-9_-]{43}$/
unfoldable pub is_token : String → Bool
is_token s = nat_eq (length (codes s)) 43 && all is_token_char (codes s)

-- `hashToken`.
abbrev pub hash_token : Runtime → String → String
hash_token rt token = rt.sha256_hex token

-- `sessionOwner`: the owner of the session whose token the header bears. `productStore` is missing where
-- the gateway runs without a database.
unfoldable pub session_owner : Runtime → ℕ → Option String → Option Database → Option String
unfolding strip_prefix is_token
session_owner rt now authorization product_store = and_then product_store (λ db.
    and_then authorization (λ header. and_then (strip_prefix "Bearer " header) (λ token.
      if is_token token then get_session_owner now (hash_token rt token) db.sessions else none)))

-- `if (!owner || !productStore)`: the two, where both are there.
abbrev pub signed_in : Runtime → ℕ → Option String → Option Database → Option (String × Database)
signed_in rt now authorization product_store =
    and_then (truthy (session_owner rt now authorization product_store))
      (λ owner. and_then product_store (λ db. some (owner, db)))
