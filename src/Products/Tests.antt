-- ===== src/Products/Tests.antt =====
-- Runs of the product catalogue and of the sessions at concrete inputs.
use meterkit.Prelude.{String, ◌≡◌, refl, Bool, true, none, some, List, [], ◌∷◌, ok}
use meterkit.Platform.{solana_devnet}
use meterkit.Policies.Tests.{platform, address}
use meterkit.Products.{
  Product, PersistedProduct, Catalogue, Session, is_product_slug, create, create_idempotent,
  get_by_uid, get_by_owner_slug, get_unique_by_slug, create_session, get_session_owner,
  clean_sessions, clean_keys,
}

abbrev pub any_uuid : String → Bool
any_uuid s = true

abbrev pub product : Product
product = record {
  id = "weather-api";
  name = "Weather";
  description = "";
  resource = "https://api/weather";
  upstream_url = none;
  price_atomic = 5;
  asset_mint = address;
  pay_to = address;
  network = solana_devnet;
}

abbrev dearer : Product
dearer = record product { price_atomic = 9 }

abbrev none_yet : Catalogue
none_yet = record { products = []; idempotency_keys = [] }

abbrev body : PersistedProduct
body = record { uid = "u1"; product = product }

abbrev stocked : Catalogue
stocked = record {
  products = record { uid = "u1"; owner_wallet = address; product = product } ∷ [];
  idempotency_keys =
      record { key = "k"; request_hash = "h"; response_body = some body; expires_at = 86_400_007 }
      ∷ [];
}

product_code : Unit {0}
unfolding create create_idempotent is_product_slug get_by_uid get_by_owner_slug get_unique_by_slug
    create_session get_session_owner clean_sessions clean_keys
product_code = tt

-- A second save under the same slug keeps the uid and takes the new price; a cleaned key is free.
updates_test :
    ((create platform any_uuid "u2" dearer stocked.products).1
      ≡ ok (record { uid = "u1"; product = dearer }))
    × ((clean_keys 86_400_007 stocked).idempotency_keys ≡ [])
    × (get_unique_by_slug "weather-api" stocked.products ≡ get_by_uid "u1" stocked.products)
    × (get_by_owner_slug "other" "weather-api" stocked.products ≡ none)
unfolding product_code
updates_test = (refl, refl, refl, refl)

abbrev sessions : List Session
sessions =
    record { token_hash = "t1"; owner_wallet = "a"; expires_at = 5 }
    ∷ record { token_hash = "t2"; owner_wallet = "b"; expires_at = 50 }
    ∷ []

-- A session ends at its expiry.
session_test :
    (get_session_owner 4 "t1" sessions ≡ some "a")
    × (get_session_owner 5 "t1" sessions ≡ none)
    × (get_session_owner 4 "t1" (
          create_session
            (record { token_hash = "t1"; owner_wallet = "c"; expires_at = 90 })
            sessions)
        ≡ some "a")
unfolding product_code
session_test = (refl, refl, refl)
