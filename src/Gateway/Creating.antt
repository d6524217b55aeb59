-- ===== src/Gateway/Creating.antt =====
-- The requests of apps/gateway/src/server.ts that a wallet signs: challenges, POST /v1/auth/session and
-- POST /v1/products. `JSON.stringify` of a product or of a wallet is a
-- parameter, and so are the random token and the nonce.
use Prim.Native.String
use meterkit.Prelude.{
  ℕ, ◌+◌, ◌*◌, String, Bool, true, false, not, ◌&&◌, ◌||◌, ◌=/=◌, nat_eq, ltb, leb, length, all,
  Option, none, some, List, if◌then◌else◌, Result, ok, err, ◌>>=◌, ◌>>◌, reject_if, or_throw,
}
use meterkit.Platform.{Runtime, codes, in_range, truthy}
use meterkit.Products.{
  Product, Catalogue, PersistedProduct, ProductError, idempotency_key_conflict,
  product_owner_conflict, is_product, create_session, create_idempotent,
}
use meterkit.Challenges.{ChallengeStore, ChallengeError, Crypto, VerifyInput, issue, verify}
use meterkit.Upstream.{Texts, assert_allowed_upstream}
use meterkit.Gateway.Session.{Database, hash_token}
use meterkit.Gateway.Allowances.{Answer, answers, thrown}

-- `request.body.auth`, with the empty text for a field that is no text.
pub record Auth : Type 0 where
  pub nonce : String
  pub signed_message : String
  pub signature : String

-- What the handlers take from their surroundings.
pub record Surroundings (C : Type 0) : Type 0 where
  pub rt : Runtime
  pub crypto : Crypto
  pub texts : Texts
  pub is_uuid : String → Bool
  pub challenges : ChallengeStore C
  pub max_active : ℕ
  pub upstream_hosts : List String
  pub public_gateway_url : String
  pub product_json : Product → String
  pub wallet_json : String → String

-- The stores, with the challenges that are open.
pub record Gateway (C : Type 0) : Type 0 where
  pub open_challenges : C
  pub database : Option Database

-- [A-Za-z0-9._:-]
abbrev pub is_key_char : ℕ → Bool
is_key_char c =
    in_range b'A' b'Z' c
    || in_range b'a' b'z' c
    || in_range b'0' b'9' c
    || nat_eq c b'.'
    || nat_eq c b'_'
    || nat_eq c b':'
    || nat_eq c b'-'

-- /^[A-Za-z0-9._:-]{8,200}$/
unfoldable pub is_idempotency_key : String → Bool
is_idempotency_key s =
    leb 8 (length (codes s)) && leb (length (codes s)) 200 && all is_key_char (codes s)

abbrev pub is_ok {ℓ κ} : {E : Type ℓ} {A : Type κ} → Result E A → Bool
is_ok (ok a) = true
is_ok (err e) = false

abbrev pub key_of : Option String → String
key_of none = ""
key_of (some s) = s

module _ {C : Type 0} (w : Surroundings C) where
  -- The checks that the challenge and the creation of a product share.
  abbrev pub check_upstream : Option String → Result Answer (Unit {0})
  check_upstream none = err (answers 422 "upstream_required")
  check_upstream (some url) =
      reject_if (not (is_ok (assert_allowed_upstream w.texts w.rt url w.upstream_hosts)))
        (answers 422 "upstream_not_allowed")

  abbrev pub session_key : String → String
  session_key wallet = String.◌++◌ "session:" wallet

  abbrev pub product_hash : Product → String
  product_hash p = w.rt.sha256_hex (w.product_json p)

  abbrev pub issued : C × Option ChallengeError → Gateway C → Gateway C × Answer
  issued (c, none) g = (record g { open_challenges = c }, answers 200 "challenge")
  issued (c, some e) g = (record g { open_challenges = c }, thrown)

  -- POST /v1/auth/session/challenge.
  unfoldable pub session_challenge : ℕ → String → String → Gateway C → Gateway C × Answer
  session_challenge now nonce wallet g =
      if ltb (w.rt.units wallet) 32 || ltb 44 (w.rt.units wallet)
      then (g, answers 422 "invalid_wallet")
      else issued
          (issue w.crypto w.challenges w.max_active
            (record {
              wallet = wallet;
              request_hash = w.rt.sha256_hex (w.wallet_json wallet);
              idempotency_key = session_key wallet;
              audience = w.public_gateway_url;
              method = "POST";
              path = "/v1/auth/session";
            })
            nonce now g.open_challenges)
          g

  abbrev pub session_input : String → Auth → VerifyInput
  session_input wallet auth = record {
    wallet = wallet;
    nonce = auth.nonce;
    signed_message = auth.signed_message;
    signature = auth.signature;
    request_hash = w.rt.sha256_hex (w.wallet_json wallet);
    idempotency_key = session_key wallet;
  }

  abbrev pub open_session :
      ℕ → String → String → Database → Gateway C → C × Bool → Gateway C × Answer
  open_session now token wallet db g (c, false) =
      (record g { open_challenges = c }, answers 401 "wallet_signature_required")
  open_session now token wallet db g (c, true) = (
    record {
      open_challenges = c;
      database = some (record db {
        sessions =
            create_session
              (record {
                token_hash = hash_token w.rt token;
                owner_wallet = wallet;
                expires_at = now + 60 * 60_000;
              })
              db.sessions;
      });
    },
    answers 200 token,
  )

  abbrev pub session_for :
      ℕ → String → String → Option Auth → Gateway C → Option Database → Gateway C × Answer
  session_for now token wallet auth g none = (g, answers 503 "postgres_required")
  session_for now token wallet none g (some db) = (g, answers 401 "wallet_signature_required")
  session_for now token wallet (some auth) g (some db) =
      open_session now token wallet db g (
        verify w.crypto w.challenges w.max_active (session_input wallet auth) now g.open_challenges)

  -- POST /v1/auth/session: `token` is the random one.
  unfoldable pub post_session : ℕ → String → String → Option Auth → Gateway C → Gateway C × Answer
  post_session now token wallet auth g = session_for now token wallet auth g g.database

  -- The checks of POST /v1/products before the signature; none is a product that the schema refuses.
  unfoldable pub check_product : Option Product → Option String → Result Answer (Product × String)
  check_product body key = do
    p ← or_throw body (answers 422 "invalid_product")
    reject_if (not (is_product w.rt w.is_uuid p)) (answers 422 "invalid_product")
    check_upstream (truthy p.upstream_url)
    reject_if (not (is_idempotency_key (key_of key))) (answers 422 "idempotency_key_required")
    ok (p, key_of key)

  -- The checks of POST /v1/auth/challenge.
  unfoldable pub check_challenge : String → Option Product → String → Result Answer Product
  check_challenge wallet body key = do
    p ← or_throw body (answers 422 "invalid_authorization_request")
    reject_if
        (ltb (w.rt.units wallet) 32
          || ltb 44 (w.rt.units wallet)
          || not (is_product w.rt w.is_uuid p)
          || p.pay_to =/= wallet
          || not (is_idempotency_key key))
        (answers 422 "invalid_authorization_request")
    check_upstream (truthy p.upstream_url)
    ok p

  abbrev pub challenge_for :
      ℕ → String → String → String → Gateway C → Result Answer Product → Gateway C × Answer
  challenge_for now nonce wallet key g (err a) = (g, a)
  challenge_for now nonce wallet key g (ok p) =
      issued
        (issue w.crypto w.challenges w.max_active
          (record {
            wallet = wallet;
            request_hash = product_hash p;
            idempotency_key = key;
            audience = w.public_gateway_url;
            method = "POST";
            path = "/v1/products";
          })
          nonce now g.open_challenges)
        g

  -- POST /v1/auth/challenge.
  unfoldable pub product_challenge :
      ℕ → String → String → Option Product → String → Gateway C → Gateway C × Answer
  product_challenge now nonce wallet body key g =
      challenge_for now nonce wallet key g (check_challenge wallet body key)

  abbrev pub product_input : Product → String → Auth → VerifyInput
  product_input p key auth = record {
    wallet = p.pay_to;
    nonce = auth.nonce;
    signed_message = auth.signed_message;
    signature = auth.signature;
    request_hash = product_hash p;
    idempotency_key = key;
  }

  abbrev pub refusal : ProductError → Answer
  refusal idempotency_key_conflict = answers 409 "idempotency_key_conflict"
  refusal product_owner_conflict = answers 409 "product_slug_unavailable"
  refusal _ = thrown

  abbrev pub created :
      Database → Gateway C → Result ProductError (Catalogue × PersistedProduct) → Gateway C × Answer
  created db g (err e) = (g, refusal e)
  created db g (ok (catalogue, p)) =
      (record g { database = some (record db { catalogue = catalogue }) }, answers 201 p.product.id)

  abbrev pub create_verified :
      ℕ → String → Product → String → Database → Gateway C → C × Bool → Gateway C × Answer
  create_verified now uid p key db g (c, false) =
      (record g { open_challenges = c }, answers 401 "wallet_signature_required")
  create_verified now uid p key db g (c, true) =
      created db (record g { open_challenges = c })
        (create_idempotent w.rt w.is_uuid now uid p key (product_hash p) db.catalogue)

  abbrev pub create_signed :
      ℕ
      → String
      → Option Auth
      → Database
      → Gateway C
      → Result Answer (Product × String)
      → Gateway C × Answer
  create_signed now uid auth db g (err a) = (g, a)
  create_signed now uid none db g (ok (p, key)) = (g, answers 401 "wallet_signature_required")
  create_signed now uid (some auth) db g (ok (p, key)) =
      create_verified now uid p key db g
        (verify w.crypto w.challenges w.max_active (product_input p key auth) now g.open_challenges)

  abbrev pub create_in :
      ℕ
      → String
      → Option Product
      → Option String
      → Option Auth
      → Gateway C
      → Option Database
      → Gateway C × Answer
  create_in now uid body key auth g none = (g, answers 503 "postgres_required")
  create_in now uid body key auth g (some db) =
      create_signed now uid auth db g (check_product body key)

  -- POST /v1/products: `uid` is the one that a new row gets.
  unfoldable pub post_product :
      ℕ → String → Option Product → Option String → Option Auth → Gateway C → Gateway C × Answer
  post_product now uid body key auth g = create_in now uid body key auth g g.database
