-- ===== src/Dynamic/Tests.antt =====
-- Runs of the guard of the proxy routes at concrete inputs.
use meterkit.Prelude.{String, ◌≡◌, ◌↔◌, refl, true, false, Option, none, some, [], ok, ◌⊎◌, arith}
use meterkit.Platform.{is_solana_address, all_some}
use meterkit.Policies.Tests.{address}
use meterkit.Products.{Product, is_product_slug}
use meterkit.Products.Tests.{product}
use meterkit.Payments.{parse_payment}
use meterkit.Payments.Memory.{MemoryStore}
use meterkit.Payments.Memory
use meterkit.Payments.Stores.{memory_payment_store}
use meterkit.Resource.{parties, to_transfer}
use meterkit.Resource.Tests.{request, asked, answer}
use meterkit.Settlement.{validate}
use meterkit.Settlement.Validating.{IsFoundAt}
use meterkit.Dynamic.{Scope, parse_product_scope, product_from_path, after_settle}
use meterkit.Dynamic.Scoping.{route, parse_product_scope_iff}
use meterkit.Dynamic.Charging.{IsCharged, after_settle-IsPaid}

abbrev scope : Scope
scope = record { owner = some address; slug = "weather-api" }

abbrev path : String
path = "/v1/products/UsdcUsdcUsdcUsdcUsdcUsdcUsdcUsdcUsdc/weather-api/proxy"

parse_test :
    (parse_product_scope path ≡ some scope)
    × (parse_product_scope "/v1/products/weather-api/proxy"
        ≡ some (record { owner = none; slug = "weather-api" }))
    × (parse_product_scope "/v1/products/Weather/proxy" ≡ none)
    × (parse_product_scope "/v1/products/weather-api/proxy/" ≡ none)
unfolding parse_product_scope is_solana_address is_product_slug
parse_test = (refl, refl, refl, refl)

parse_product_scope_iff_example : (parse_product_scope path ≡ some scope) ↔ (
    (all_some is_solana_address (some address) ≡ true)
    × (is_product_slug "weather-api" ≡ true)
    × (path ≡ route scope))
parse_product_scope_iff_example = parse_product_scope_iff path scope

abbrev only : Scope → Option Product
only sc = some product

abbrev empty : MemoryStore
empty = record { records = []; authorizations = [] }

-- What is charged for the weather, as the RPC finds it at its second attempt.
settles :
    (s : MemoryStore) × (after_settle only memory_payment_store
        (some (validate request 2))
        5
        "u1"
        (some path)
        asked
        answer
        empty
      ≡ ok s)
unfolding after_settle product_from_path parse_product_scope is_solana_address is_product_slug
    parse_payment memory_payment_store Memory.save Memory.has validate
settles = (_, refl)

after_settle-IsPaid_example :
    ((parties answer ≡ none) × (settles.0 ≡ empty))
    ⊎ ((p : String × String) × (parties answer ≡ some p)
        × IsCharged only memory_payment_store
            (some (validate request 2))
            5
            "u1"
            (some path)
            asked
            p
            empty
            settles.0
        × IsFoundAt request (to_transfer asked p) 0 2)
after_settle-IsPaid_example =
    after_settle-IsPaid only memory_payment_store request 2 5 "u1" (some path) asked answer empty
      settles.0 (omega arith) settles.1

-- A settlement that failed charges nothing.
unsettled :
    after_settle only memory_payment_store
      (some (validate request 2))
      5
      "u1"
      (some path)
      asked
      (record answer { success = false })
      empty
    ≡ ok empty
unfolding after_settle
unsettled = refl
