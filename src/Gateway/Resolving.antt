-- ===== src/Gateway/Resolving.antt =====
-- `resolveScopedProduct` of apps/gateway/src/server.ts.
use meterkit.Prelude.{
  String, Bool, false, ◌&&◌, ◌||◌, ◌==◌, Option, none, some, List, and_then, if◌then◌else◌,
}
use meterkit.Platform.{is_falsy}
use meterkit.Products.{Product, ProductRow, get_by_owner_slug, get_unique_by_slug}
use meterkit.Dynamic.{Scope}
use meterkit.Gateway.Session.{Database}

-- `resolveScopedProduct`. An owner is never the empty text in a path; a row stands for the product that
-- `mapProduct` makes of it.
abbrev pub configured : Scope → List ProductRow → Option ProductRow
configured sc rows = elim sc.owner [
  | none ↦ get_unique_by_slug sc.slug rows
  | some owner ↦ get_by_owner_slug owner sc.slug rows
]

abbrev pub is_configured_product : Product → Scope → Bool
is_configured_product product sc = sc.slug == product.id && (is_falsy sc.owner || owner_is sc.owner)
  where
    owner_is : Option String → Bool
    owner_is none = false
    owner_is (some owner) = owner == product.pay_to

abbrev pub or_default : Product → Scope → Option ProductRow → Option Product
or_default product sc (some row) = some row.product
or_default product sc none = if is_configured_product product sc then some product else none

unfoldable pub resolve_scoped_product : Product → Option Database → Scope → Option Product
resolve_scoped_product product product_store sc =
    or_default product sc (and_then product_store (λ db. configured sc db.catalogue.products))
