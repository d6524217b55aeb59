-- ===== src/Dynamic.antt =====
-- `createDynamicX402Middleware` and `parseProductScope` of packages/sdk/src/index.ts: the guard of the proxy
-- routes, whose product is found by the path. The lookup of a product is a parameter.
pub mod Parts
pub mod Scoping
pub mod Charging
mod Tests
use Prim.Native.Char.{Char, code}
use Prim.Native.String
use meterkit.Prelude.{
  ℕ, String, Bool, true, false, not, ◌&&◌, ◌==◌, nat_eq, Option, none, some, List, [], ◌∷◌,
  if◌then◌else◌, Result, ok, err, ◌>>=◌, ◌>>◌, or_throw,
}
use meterkit.Platform.{truthy, is_solana_address}
use meterkit.Products.{Product, is_product_slug}
use meterkit.Payments.{Payment, PaymentError, parse_payment}
use meterkit.Payments.Interface.{PaymentStore}
use meterkit.Settlement.{Transfer, SettlementError}
use meterkit.Middleware.{Settlement}
use meterkit.Resource.{
  Requirements, SettleError, parties, validated, or_unsaved, to_transfer, to_record,
}

-- The parts of a path between its slashes.
abbrev pub add_char : Char → List String → List String
add_char c [] = String.◌∷◌ c String.[] ∷ []
add_char c (s ∷ ss) = String.◌∷◌ c s ∷ ss

unfoldable pub split_slash : String → List String
split_slash String.[] = String.[] ∷ []
split_slash (String.◌∷◌ c s) =
    let rest = split_slash s in if nat_eq (code c) b'/' then String.[] ∷ rest else add_char c rest

-- An owner, if the path names one, and a slug.
pub record Scope : Type 0 where
  pub owner : Option String
  pub slug : String

-- The two regular expressions, on the parts of the path.
abbrev pub scoped : List String → Option Scope
scoped (root ∷ v1 ∷ products ∷ owner ∷ slug ∷ proxy ∷ []) =
    if root == ""
      && v1 == "v1"
      && products == "products"
      && is_solana_address owner
      && is_product_slug slug
      && proxy == "proxy"
    then some (record { owner = some owner; slug = slug })
    else none
scoped (root ∷ v1 ∷ products ∷ slug ∷ proxy ∷ []) =
    if root == ""
      && v1 == "v1"
      && products == "products"
      && is_product_slug slug
      && proxy == "proxy"
    then some (record { owner = none; slug = slug })
    else none
scoped _ = none

-- `parseProductScope`; none where it throws.
unfoldable pub parse_product_scope : String → Option Scope
unfolding split_slash
parse_product_scope path = scoped (split_slash path)

pub data DynamicError : Type 0 where
  payment_path_missing product_route_invalid product_not_found : DynamicError
  failed : SettleError → DynamicError

abbrev pub or_failed : {A : Type 0} → Result SettleError A → Result DynamicError A
or_failed (ok a) = ok a
or_failed (err e) = err (failed e)

module _ {S : Type 0} (resolve_product : Scope → Option Product) (store : PaymentStore S)
    (validator : Option (Transfer → Result SettlementError (Unit {0}))) where
  -- `productFromPath`.
  unfoldable pub product_from_path : String → Result DynamicError Product
  product_from_path path = do
    scope ← or_throw (parse_product_scope path) product_route_invalid
    or_throw (resolve_product scope) product_not_found

  -- The settlement is validated, and saved as a payment for the product.
  abbrev pub charge :
      ℕ → String → Requirements → S → String × String → Product → Result DynamicError S
  charge now uuid r s p product = do
    or_failed (validated validator (to_transfer r p))
    value ← or_failed (or_unsaved (parse_payment (to_record product now uuid r p)))
    or_failed (or_unsaved (store.save value s))

  abbrev pub settled_parties :
      ℕ
      → String
      → Option String
      → Requirements
      → S
      → Option (String × String)
      → Result DynamicError S
  settled_parties now uuid path r s none = ok s
  settled_parties now uuid path r s (some p) = do
    given ← or_throw (truthy path) payment_path_missing
    product ← product_from_path given
    charge now uuid r s p product

  -- `onAfterSettle`. An empty path is a missing one.
  unfoldable pub after_settle :
      ℕ → String → Option String → Requirements → Settlement → S → Result DynamicError S
  unfolding product_from_path parse_payment
  after_settle now uuid path r result s = settled_parties now uuid path r s (parties result)
