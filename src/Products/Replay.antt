-- ===== src/Products/Replay.antt =====
-- What an idempotency key and a session token promise.
use meterkit.Prelude.{
  ℕ, String, ◌≡◌, refl, subst, Bool, true, false, not, ◌&&◌, some, List, [], ◌∷◌, ◌==◌, ◌=/=◌,
  eq_iff, eq_refl, find, filter, leb, ltb, ok, err, bind-ok, reject_if-ok, or_throw-ok,
  Option-cases, inl, inr, arith, not-false, ap, ◌+◌, ◌≤◌,
}
use meterkit.Platform.{Runtime}
use meterkit.Spend.{numeric_bound}
use meterkit.Products.{
  Product, PersistedProduct, ProductRow, Catalogue, IdempotencyRow, invalid,
  idempotency_key_conflict, is_product, is_persisted, map_product, insert_product, upserted,
  is_same_product, constraint_violated, idempotency_request_incomplete, create_first, replay,
  create_idempotent, Session, clean_sessions, get_session_owner,
}

-- The answer that the table holds for a key and a request.
record HasAnswer (db : Catalogue) (key request_hash : String) (body : PersistedProduct)
    : Type 0 where
  row : IdempotencyRow
  found : find (λ r. r.key == key) db.idempotency_keys ≡ some row
  hash : row.request_hash ≡ request_hash
  stored : row.response_body ≡ some body

module _ (rt : Runtime) (is_uuid : String → Bool) where
  map_product-ok :
      (row : ProductRow) {p : PersistedProduct}
      → map_product rt is_uuid row ≡ ok p
      → is_persisted rt is_uuid p ≡ true
  unfolding map_product
  map_product-ok row h = ground (arith, h)

  insert_product-ok :
      (uid : String) (p : Product) (rows : List ProductRow)
      {made : List ProductRow × PersistedProduct}
      → insert_product rt is_uuid uid p rows ≡ ok made
      → is_persisted rt is_uuid made.1 ≡ true
  unfolding insert_product
  insert_product-ok uid p rows {made} h =
      let (_, h₁) = reject_if-ok (not (ltb p.price_atomic numeric_bound)) constraint_violated h in
      let (created, mapped, h₂) =
        bind-ok (map_product rt is_uuid (upserted uid p (find (is_same_product p) rows))) h₁ in
      let same : created ≡ made.1 = cc in
      subst (λ q. is_persisted rt is_uuid q ≡ true) same
        (map_product-ok (upserted uid p (find (is_same_product p) rows)) mapped)

  replay-HasAnswer :
      (db db' : Catalogue) (key request_hash : String) (row : IdempotencyRow)
      {body : PersistedProduct}
      → find (λ r. r.key == key) db.idempotency_keys ≡ some row
      → replay rt is_uuid db request_hash row ≡ ok (db', body)
      → HasAnswer db' key request_hash body × (is_persisted rt is_uuid body ≡ true)
  unfolding replay
  replay-HasAnswer db db' key request_hash row {body} found h =
      let (same_hash, h₁) =
        reject_if-ok (row.request_hash =/= request_hash) idempotency_key_conflict h in
      let (stored, has, h₂) = or_throw-ok row.response_body idempotency_request_incomplete h₁ in
      let (valid, h₃) = reject_if-ok (not (is_persisted rt is_uuid stored)) invalid h₂ in
      let same_db : db ≡ db' = cc in
      let same : stored ≡ body = cc in
      (
        subst (λ d. HasAnswer d key request_hash body) same_db
            (record {
              row = row;
              found = found;
              hash = ground (arith, same_hash, eq_iff row.request_hash request_hash);
              stored = subst (λ b. row.response_body ≡ some b) same has;
            }),
        subst (λ b. is_persisted rt is_uuid b ≡ true) same (not-false valid),
      )

  create_first-HasAnswer :
      (now : ℕ) (uid : String) (p : Product) (key request_hash : String) (db db' : Catalogue)
      {body : PersistedProduct}
      → create_first rt is_uuid now uid p key request_hash db ≡ ok (db', body)
      → HasAnswer db' key request_hash body × (is_persisted rt is_uuid body ≡ true)
  unfolding create_first
  create_first-HasAnswer now uid p key request_hash db db' {body} h =
      let (made, e, h₁) = bind-ok (insert_product rt is_uuid uid p db.products) h in
      let same : made.1 ≡ body = cc in
      let row : IdempotencyRow = record {
        key = key;
        request_hash = request_hash;
        response_body = some made.1;
        expires_at = now + 86_400_000;
      } in
      let next : Catalogue = record {
        products = made.0;
        idempotency_keys = row ∷ db.idempotency_keys;
      } in
      let same_db : next ≡ db' = cc in
      (
        subst (λ d. HasAnswer d key request_hash body) same_db
            (record {
              row = row;
              found = rw (eq_refl key) refl;
              hash = refl;
              stored = ap some same;
            }),
        subst (λ b. is_persisted rt is_uuid b ≡ true) same (insert_product-ok uid p db.products e),
      )

  create-HasAnswer :
      (now : ℕ) (uid : String) (p : Product) (key request_hash : String) (db db' : Catalogue)
      {body : PersistedProduct}
      → create_idempotent rt is_uuid now uid p key request_hash db ≡ ok (db', body)
      → HasAnswer db' key request_hash body × (is_persisted rt is_uuid body ≡ true)
  unfolding create_idempotent
  create-HasAnswer now uid p key request_hash db db' h =
      let (_, h₁) = reject_if-ok (not (is_product rt is_uuid p)) invalid h in
      elim (Option-cases (find (λ r. r.key == key) db.idempotency_keys)) [
        | inl n ↦ create_first-HasAnswer now uid p key request_hash db db' (rw n at h₁)
        | inr (row, n) ↦ replay-HasAnswer db db' key request_hash row n (rw n at h₁)
      ]

  -- A key that was answered is refused for any other request hash.
  pub create_idempotent-conflict :
      (now later : ℕ) (uid uid' : String) (p q : Product) (key request_hash other : String)
      (db db' : Catalogue) {body : PersistedProduct}
      → create_idempotent rt is_uuid now uid p key request_hash db ≡ ok (db', body)
      → is_product rt is_uuid q ≡ true
      → (request_hash == other) ≡ false
      → create_idempotent rt is_uuid later uid' q key other db' ≡ err idempotency_key_conflict
  unfolding create_idempotent replay
  create_idempotent-conflict now later uid uid' p q key request_hash other db db' h valid differs =
      let (a, _) = create-HasAnswer now uid p key request_hash db db' h in
      rw (valid, a.found, a.hash, differs) refl

find-clean :
    (now later : ℕ) (token_hash : String) (rows : List Session)
    → now ≤ later
    → find
        (λ r. r.token_hash == token_hash && ltb later r.expires_at)
        (filter (λ r. not (leb r.expires_at now)) rows)
      ≡ find (λ r. r.token_hash == token_hash && ltb later r.expires_at) rows
find-clean now later token_hash [] h = refl
find-clean now later token_hash (r ∷ rows) h =
    ground (arith, find-clean now later token_hash rows h)

-- Cleaning up the sessions does not change who owns a session from then on.
pub clean_sessions-owner :
    (now later : ℕ) (token_hash : String) (rows : List Session)
    → now ≤ later
    → get_session_owner later token_hash (clean_sessions now rows)
      ≡ get_session_owner later token_hash rows
unfolding get_session_owner clean_sessions
clean_sessions-owner now later token_hash rows h = rw (find-clean now later token_hash rows h) refl
