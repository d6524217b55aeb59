-- ===== src/Products.antt =====
-- Products: `productSchema` of packages/core/src/index.ts, and the tables `products`, `idempotency_keys`
-- and `wallet_sessions` of packages/database/src/index.ts. The test of a UUID is a parameter, and so
-- is the uid that a new row gets.
pub mod Replay
pub mod Tests
use meterkit.Prelude.{
  ℕ, ◌+◌, String, Bool, true, false, not, ◌&&◌, ◌||◌, Option, none, some, List, [], ◌∷◌, ◌==◌,
  ◌=/=◌, ltb, leb, length, any, find, filter, map, if◌then◌else◌, modify_where, Result, ok, err,
  ◌>>=◌, ◌>>◌, reject_if, or_throw,
}
use meterkit.Platform.{truthy, Runtime, codes, all_some, solana_devnet}
use meterkit.Policies.{is_alphanumeric, is_slug_rest}
use meterkit.Spend.{numeric_bound}

-- `Product`, and with its uid `PersistedProduct`.
pub record Product : Type 0 where
  pub id : String
  pub name : String
  pub description : String
  pub resource : String
  pub upstream_url : Option String
  pub price_atomic : ℕ
  pub asset_mint : String
  pub pay_to : String
  pub network : String

pub record PersistedProduct : Type 0 where
  pub uid : String
  pub product : Product

pub data ProductError : Type 0 where
  invalid constraint_violated product_owner_conflict : ProductError
  idempotency_key_conflict idempotency_request_incomplete : ProductError

-- PRODUCT_SLUG_PATTERN: /^[a-z0-9](?:[a-z0-9-]{0,61}[a-z0-9])?$/
abbrev is_slug : List ℕ → Bool
is_slug [] = false
is_slug (c ∷ cs) = is_alphanumeric c && is_slug_rest cs && leb (length cs) 62

unfoldable pub is_product_slug : String → Bool
is_product_slug s = is_slug (codes s)

abbrev between : ℕ → ℕ → ℕ → Bool
between lo hi n = leb lo n && leb n hi

module _ (rt : Runtime) (is_uuid : String → Bool) where
  -- What `productSchema` accepts.
  unfoldable pub is_product : Product → Bool
  unfolding is_product_slug
  is_product p =
      is_product_slug p.id
      && between 3 100 (rt.units p.name)
      && leb (rt.units p.description) 500
      && rt.is_url p.resource
      && all_some rt.is_url p.upstream_url
      && ltb 0 p.price_atomic
      && between 32 44 (rt.units p.asset_mint)
      && between 32 44 (rt.units p.pay_to)
      && p.network == solana_devnet

  -- What `persistedProductSchema` accepts.
  unfoldable pub is_persisted : PersistedProduct → Bool
  unfolding is_product
  is_persisted p = is_product p.product && is_uuid p.uid

-- A row of `products`.
pub record ProductRow : Type 0 where
  pub uid : String
  pub owner_wallet : String
  pub product : Product

-- A row of `idempotency_keys`.
pub record IdempotencyRow : Type 0 where
  pub key : String
  pub request_hash : String
  pub response_body : Option PersistedProduct
  pub expires_at : ℕ

pub record Catalogue : Type 0 where
  pub products : List ProductRow
  pub idempotency_keys : List IdempotencyRow

-- The SET list of ON CONFLICT (owner_wallet, id).
unfoldable pub merge_product : Product → ProductRow → ProductRow
merge_product p row = record row {
  product = record row.product {
    name = p.name;
    description = p.description;
    resource = p.resource;
    upstream_url = p.upstream_url;
    price_atomic = p.price_atomic;
  };
}

unfoldable pub is_same_product : Product → ProductRow → Bool
is_same_product p row = row.owner_wallet == p.pay_to && row.product.id == p.id

-- The row that INSERT … RETURNING * gives.
unfoldable pub upserted : String → Product → Option ProductRow → ProductRow
unfolding merge_product
upserted uid p none = record { uid = uid; owner_wallet = p.pay_to; product = p }
upserted uid p (some row) = merge_product p row

unfoldable pub write_product :
    String → Product → Option ProductRow → List ProductRow → List ProductRow
unfolding merge_product is_same_product
write_product uid p none rows = record { uid = uid; owner_wallet = p.pay_to; product = p } ∷ rows
write_product uid p (some row) rows = modify_where (is_same_product p) (merge_product p) rows

module _ (rt : Runtime) (is_uuid : String → Bool) where
  -- `mapProduct`.
  unfoldable pub map_product : ProductRow → Result ProductError PersistedProduct
  unfolding is_persisted
  map_product row =
      let p : PersistedProduct = record {
        uid = row.uid;
        product = record row.product { upstream_url = truthy row.product.upstream_url };
      } in
      if is_persisted rt is_uuid p then ok p else err invalid

  -- INSERT … ON CONFLICT … RETURNING *, and `mapProduct` of the row.
  unfoldable pub insert_product :
      String → Product → List ProductRow → Result ProductError (List ProductRow × PersistedProduct)
  unfolding map_product write_product upserted
  insert_product uid p rows = do
    reject_if (not (ltb p.price_atomic numeric_bound)) constraint_violated
    created ← map_product (upserted uid p (find (is_same_product p) rows))
    ok (write_product uid p (find (is_same_product p) rows) rows, created)

  -- `create`. It is one statement, and what `mapProduct` refuses stays written.
  unfoldable pub create :
      String → Product → List ProductRow → List ProductRow × Result ProductError PersistedProduct
  unfolding insert_product
  create uid p rows =
      if not (is_product rt is_uuid p)
      then (rows, err invalid)
      else if not (ltb p.price_atomic numeric_bound)
      then (rows, err constraint_violated)
      else (
        write_product uid p (find (is_same_product p) rows) rows,
        map_product (upserted uid p (find (is_same_product p) rows)),
      )

  -- The answer to a request whose key is known.
  unfoldable pub replay :
      Catalogue → String → IdempotencyRow → Result ProductError (Catalogue × PersistedProduct)
  replay db request_hash row = do
    reject_if (row.request_hash =/= request_hash) idempotency_key_conflict
    body ← or_throw row.response_body idempotency_request_incomplete
    reject_if (not (is_persisted rt is_uuid body)) invalid
    ok (db, body)

  -- The request whose key is new: both tables are written, or neither is.
  unfoldable pub create_first :
      ℕ
      → String
      → Product
      → String
      → String
      → Catalogue
      → Result ProductError (Catalogue × PersistedProduct)
  unfolding insert_product
  create_first now uid p key request_hash db = do
    made ← insert_product uid p db.products
    ok (
      record {
        products = made.0;
        idempotency_keys =
            record {
              key = key;
              request_hash = request_hash;
              response_body = some made.1;
              expires_at = now + 86_400_000;
            }
            ∷ db.idempotency_keys;
      },
      made.1,
    )

  abbrev answer :
      ℕ
      → String
      → Product
      → String
      → String
      → Catalogue
      → Option IdempotencyRow
      → Result ProductError (Catalogue × PersistedProduct)
  answer now uid p key request_hash db none = create_first now uid p key request_hash db
  answer now uid p key request_hash db (some row) = replay db request_hash row

  -- `createIdempotent`.
  unfoldable pub create_idempotent :
      ℕ
      → String
      → Product
      → String
      → String
      → Catalogue
      → Result ProductError (Catalogue × PersistedProduct)
  unfolding create_first replay
  create_idempotent now uid p key request_hash db = do
    reject_if (not (is_product rt is_uuid p)) invalid
    answer now uid p key request_hash db (find (λ r. r.key == key) db.idempotency_keys)

unfoldable pub get_by_uid : String → List ProductRow → Option ProductRow
get_by_uid uid rows = find (λ r. r.uid == uid) rows

unfoldable pub get_by_owner_slug : String → String → List ProductRow → Option ProductRow
get_by_owner_slug owner slug rows = find (λ r. r.owner_wallet == owner && r.product.id == slug) rows

abbrev only : List ProductRow → Option ProductRow
only (r ∷ []) = some r
only _ = none

-- `getUniqueBySlug`: no product where two owners share the slug.
unfoldable pub get_unique_by_slug : String → List ProductRow → Option ProductRow
get_unique_by_slug slug rows = only (filter (λ r. r.product.id == slug) rows)

-- A row of `wallet_sessions`.
pub record Session : Type 0 where
  pub token_hash : String
  pub owner_wallet : String
  pub expires_at : ℕ

-- ON CONFLICT (token_hash) DO NOTHING.
unfoldable pub create_session : Session → List Session → List Session
create_session s rows = if any (λ r. r.token_hash == s.token_hash) rows then rows else s ∷ rows

unfoldable pub get_session_owner : ℕ → String → List Session → Option String
get_session_owner now token_hash rows =
    owner_of (find (λ r. r.token_hash == token_hash && ltb now r.expires_at) rows)
  where
    owner_of : Option Session → Option String
    owner_of none = none
    owner_of (some r) = some r.owner_wallet

-- The part of `cleanupExpired` on these tables.
unfoldable pub clean_sessions : ℕ → List Session → List Session
clean_sessions now rows = filter (λ r. not (leb r.expires_at now)) rows

unfoldable pub clean_keys : ℕ → Catalogue → Catalogue
clean_keys now db = record db {
  idempotency_keys = filter (λ r. not (leb r.expires_at now)) db.idempotency_keys;
}
