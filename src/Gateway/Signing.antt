-- ===== src/Gateway/Signing.antt =====
-- What the signed requests of apps/gateway/src/server.ts prove of the wallet.
use meterkit.Prelude.{
  ℕ, String, ◌≡◌, ◌≢◌, refl, ap, sym, subst, Bool, true, false, not, Option, none, some, Result, ok,
  err, arith, or_throw-ok, reject_if-ok, bind-ok, not-false,
}
use meterkit.Platform.{truthy}
use meterkit.Products.{
  Product, Catalogue, PersistedProduct, ProductError, invalid, constraint_violated,
  product_owner_conflict, idempotency_key_conflict, idempotency_request_incomplete, is_product,
  create_idempotent,
}
use meterkit.Challenges.{Challenge, verify}
use meterkit.Challenges.Verifying.{IsVerified, verify-IsVerified}
use meterkit.Upstream.{assert_allowed_upstream}
use meterkit.Gateway.Session.{Database}
use meterkit.Gateway.Allowances.{Answer, answers}
use meterkit.Gateway.Creating.{
  Auth, Surroundings, Gateway, is_ok, is_idempotency_key, check_upstream, check_product, key_of,
  product_input, product_hash, refusal, created, create_verified, create_signed, create_in,
  post_product,
}

module _ {C : Type 0} (w : Surroundings C) where
  -- The wallet of the product has signed this very product with this key.
  pub record IsSigned (now : ℕ) (p : Product) (key : String) (auth : Auth) (g : Gateway C)
      : Type 0 where
    pub challenge : Challenge
    pub stored :
        (w.challenges.consume_wallet_challenge (w.crypto.sha256_hex auth.nonce) g.open_challenges).1
        ≡ some challenge
    pub verified : IsVerified w.crypto (product_input w p key auth) now challenge

  -- What the answer 201 to POST /v1/products stands for.
  pub record IsCreated (now : ℕ) (uid : String) (g g' : Gateway C) : Type 0 where
    pub product : Product
    pub key : String
    pub auth : Auth
    pub database : Database
    pub catalogue : Catalogue
    pub row : PersistedProduct
    pub given : g.database ≡ some database
    pub accepted : is_product w.rt w.is_uuid product ≡ true
    pub keyed : is_idempotency_key key ≡ true
    pub upstream : String
    pub has_upstream : truthy product.upstream_url ≡ some upstream
    pub allowed : is_ok (assert_allowed_upstream w.texts w.rt upstream w.upstream_hosts) ≡ true
    pub signed : IsSigned now product key auth g
    pub made :
        create_idempotent w.rt w.is_uuid now uid product key
          (product_hash w product)
          database.catalogue
        ≡ ok (catalogue, row)
    pub kept : g'.database ≡ some (record database { catalogue = catalogue })

  check_upstream-ok :
      (url : Option String) (u : Unit {0})
      → check_upstream w url ≡ ok u
      → (s : String) × (url ≡ some s)
        × (is_ok (assert_allowed_upstream w.texts w.rt s w.upstream_hosts) ≡ true)
  check_upstream-ok none u h = cc h
  check_upstream-ok (some s) u h = (s, refl, ground (arith, h))

  -- What the checks before the signature have passed.
  record IsChecked (p : Product) (key : String) : Type 0 where
    accepted : is_product w.rt w.is_uuid p ≡ true
    keyed : is_idempotency_key key ≡ true
    upstream : String
    has_upstream : truthy p.upstream_url ≡ some upstream
    allowed : is_ok (assert_allowed_upstream w.texts w.rt upstream w.upstream_hosts) ≡ true

  check_product-IsChecked :
      (body : Option Product) (header : Option String) (p : Product) (key : String)
      → check_product w body header ≡ ok (p, key)
      → IsChecked p key
  unfolding check_product
  check_product-IsChecked body header p key h =
      let (q, given, h₁) = or_throw-ok body (answers 422 "invalid_product") h in
      let (accepted, h₂) =
        reject_if-ok (not (is_product w.rt w.is_uuid q)) (answers 422 "invalid_product") h₁ in
      let (u, checked, h₃) = bind-ok (check_upstream w (truthy q.upstream_url)) h₂ in
      let (keyed, h₄) =
        reject_if-ok (not (is_idempotency_key (key_of header)))
          (answers 422 "idempotency_key_required") h₃ in
      let (url, has, allowed) = check_upstream-ok (truthy q.upstream_url) u checked in
      let same : q ≡ p = cc h₄ in
      let same_key : key_of header ≡ key = cc h₄ in
      subst (λ z. IsChecked z key) same
        (record {
          accepted = not-false accepted;
          keyed = subst (λ z. is_idempotency_key z ≡ true) same_key (not-false keyed);
          upstream = url;
          has_upstream = has;
          allowed = allowed;
        })

  created-kept :
      (db : Database) (g g' : Gateway C) (m : Result ProductError (Catalogue × PersistedProduct))
      (id : String)
      → created w db g m ≡ (g', answers 201 id)
      → (c : Catalogue) × (row : PersistedProduct) × (m ≡ ok (c, row))
        × (g'.database ≡ some (record db { catalogue = c }))
  created-kept db g g' (ok (c, row)) id h = (c, row, refl, ap (λ z. z.0.database) (sym h))
  created-kept db g g' (err e) id h = absurd (refused e (ap (λ z. z.1) h))
    where
      refused : (e : ProductError) → refusal w e ≢ answers 201 id
      refused invalid h = ground (arith, h)
      refused constraint_violated h = ground (arith, h)
      refused product_owner_conflict h = ground (arith, h)
      refused idempotency_key_conflict h = ground (arith, h)
      refused idempotency_request_incomplete h = ground (arith, h)

  create_verified-made :
      (now : ℕ) (uid : String) (p : Product) (key : String) (db : Database) (g g' : Gateway C)
      (m : C × Bool) (id : String)
      → create_verified w now uid p key db g m ≡ (g', answers 201 id)
      → (m.1 ≡ true)
        × ((c : Catalogue) × (row : PersistedProduct) × (create_idempotent w.rt w.is_uuid now uid p
                key
                (product_hash w p)
                db.catalogue
              ≡ ok (c, row))
            × (g'.database ≡ some (record db { catalogue = c })))
  create_verified-made now uid p key db g g' (c, false) id h = ground (arith, ap (λ z. z.1) h)
  create_verified-made now uid p key db g g' (c, true) id h = (
    refl,
    created-kept db (record g { open_challenges = c }) g'
        (create_idempotent w.rt w.is_uuid now uid p key (product_hash w p) db.catalogue) id h,
  )

  create_signed-IsCreated :
      (now : ℕ) (uid : String) (auth : Option Auth) (db : Database) (g g' : Gateway C)
      (m : Result Answer (Product × String)) (id : String)
      → g.database ≡ some db
      → ((p : Product) (key : String) → m ≡ ok (p, key) → IsChecked p key)
      → ((a : Answer) → m ≡ err a → a ≢ answers 201 id)
      → create_signed w now uid auth db g m ≡ (g', answers 201 id)
      → IsCreated now uid g g'
  create_signed-IsCreated now uid auth db g g' (err a) id given checked refused h =
      absurd (refused a refl (ap (λ z. z.1) h))
  create_signed-IsCreated now uid none db g g' (ok (p, key)) id given checked refused h =
      ground (arith, ap (λ z. z.1) h)
  create_signed-IsCreated now uid (some auth) db g g' (ok (p, key)) id given checked refused h =
      let k = checked p key refl in
      let (t, (c, row, made, kept)) =
        create_verified-made now uid p key db g g'
          (verify w.crypto w.challenges w.max_active (product_input w p key auth) now
            g.open_challenges)
          id h in
      let (challenge, stored, verified) =
        verify-IsVerified w.crypto w.challenges w.max_active (product_input w p key auth) now
          g.open_challenges t in
      record {
        product = p;
        key = key;
        auth = auth;
        database = db;
        catalogue = c;
        row = row;
        given = given;
        accepted = k.accepted;
        keyed = k.keyed;
        upstream = k.upstream;
        has_upstream = k.has_upstream;
        allowed = k.allowed;
        signed = record { challenge = challenge; stored = stored; verified = verified };
        made = made;
        kept = kept;
      }

  check_product-refused :
      (body : Option Product) (header : Option String) (a : Answer) (id : String)
      → check_product w body header ≡ err a
      → a ≢ answers 201 id
  unfolding check_product
  check_product-refused body header a id h g = ground (arith, h, g)

  create_in-IsCreated :
      (now : ℕ) (uid : String) (body : Option Product) (header : Option String) (auth : Option Auth)
      (g g' : Gateway C) (m : Option Database) (id : String)
      → g.database ≡ m
      → create_in w now uid body header auth g m ≡ (g', answers 201 id)
      → IsCreated now uid g g'
  create_in-IsCreated now uid body header auth g g' none id e h = ground (arith, ap (λ z. z.1) h)
  create_in-IsCreated now uid body header auth g g' (some db) id e h =
      create_signed-IsCreated now uid auth db g g' (check_product w body header) id e
        (check_product-IsChecked body header) (λ a c. check_product-refused body header a id c) h

  -- POST /v1/products answers 201 only for a product that the schema accepts and whose upstream is allowed,
  -- when the wallet that it pays to has signed an open, unexpired challenge for this product and this
  -- idempotency key; the catalogue is then what `createIdempotent` made of it, and the allowances and the
  -- sessions are as they were.
  pub post_product-IsCreated :
      (now : ℕ) (uid : String) (body : Option Product) (header : Option String) (auth : Option Auth)
      (g g' : Gateway C) (id : String)
      → post_product w now uid body header auth g ≡ (g', answers 201 id)
      → IsCreated now uid g g'
  unfolding post_product
  post_product-IsCreated now uid body header auth g g' id h =
      create_in-IsCreated now uid body header auth g g' g.database id refl h
