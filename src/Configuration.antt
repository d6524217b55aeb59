-- ===== src/Configuration.antt =====
-- apps/gateway/src/config.ts: the configuration that the gateway reads from its environment. `Number` of a
-- text is a parameter: a natural number, or none for anything else, which every test here refuses.
pub mod Bounding
mod Tests
use Prim.Native.Char.{code}
use Prim.Native.String
use meterkit.Prelude.{
  ℕ, String, Bool, true, false, not, ◌&&◌, ◌||◌, ◌==◌, leb, nat_eq, Option, none, some, List, [],
  if◌then◌else◌, Result, ok, err, ◌>>=◌, ◌>>◌, reject_if, or_throw,
}
use meterkit.Platform.{Runtime, Url, solana_devnet, is_falsy}
use meterkit.Spend.{get_or}
use meterkit.Products.{Product, is_product}

-- `process.env`.
pub record Environment : Type 0 where
  pub meterkit_network : Option String
  pub port : Option String
  pub gateway_port : Option String
  pub trust_proxy_hops : Option String
  pub public_gateway_url : Option String
  pub merchant_wallet : Option String
  pub usdc_mint : Option String
  pub database_url : Option String
  pub pilot_max_active_per_owner : Option String
  pub pilot_evidence_retention_days : Option String
  pub settlement_export_max_range_days : Option String
  pub settlement_export_max_records : Option String

pub record GatewayConfig : Type 0 where
  pub port : ℕ
  pub public_gateway_url : String
  pub trust_proxy_hops : ℕ
  pub max_active_engagements_per_owner : ℕ
  pub evidence_retention_days : ℕ
  pub max_range_days : ℕ
  pub max_records : ℕ
  pub product : Product

pub data ConfigError : Type 0 where
  unsupported_network bad_port bad_integer bad_proxy_hops : ConfigError
  invalid_url url_with_credentials url_not_https bad_product merchant_required : ConfigError

abbrev pub system_program : String
system_program = "11111111111111111111111111111111"

abbrev pub default_usdc_devnet_mint : String
default_usdc_devnet_mint = "4zMMC9srt5Ri5X14GAgXhaHii3GnPAEERYPJgZJDncDU"

-- `s.replace(/\/$/, "")`.
unfoldable pub without_slash : String → String
without_slash String.[] = String.[]
without_slash (String.◌∷◌ c s) =
    let rest = without_slash s in
    if s == ""
    then (if nat_eq (code c) b'/' then String.[] else String.◌∷◌ c s)
    else String.◌∷◌ c rest

-- A text and another behind it.
unfoldable pub followed_by : String → String → String
followed_by String.[] t = t
followed_by (String.◌∷◌ c s) t = String.◌∷◌ c (followed_by s t)

module _ (to_number : String → Option ℕ) where
  -- `parsePort`, `parseBoundedInteger` and the test of TRUST_PROXY_HOPS.
  unfoldable pub parse_between : ConfigError → ℕ → ℕ → String → Result ConfigError ℕ
  parse_between e lo hi value = do
    n ← or_throw (to_number value) e
    reject_if (not (leb lo n && leb n hi)) e
    ok n

-- `url.protocol !== "https:" && !(local && url.protocol === "http:")`.
abbrev pub is_unprotected : Url → Bool
is_unprotected url =
    not (url.protocol == "https:")
    && not ((url.hostname == "localhost" || url.hostname == "127.0.0.1") && url.protocol == "http:")

module _ (rt : Runtime) where
  -- `parsePublicUrl`.
  unfoldable pub parse_public_url : String → Result ConfigError String
  unfolding without_slash
  parse_public_url value = do
    url ← or_throw (rt.parse_url value) invalid_url
    reject_if (not (url.username == "" && url.password == "" && url.search == "" && url.hash == ""))
        url_with_credentials
    reject_if (is_unprotected url) url_not_https
    ok (without_slash (rt.print_url url))

-- `a || b`.
abbrev pub non_empty_or : Option String → String → String
non_empty_or none d = d
non_empty_or (some s) d = if s == "" then d else s

-- `a ?? b` on two texts that may be missing.
abbrev pub first_given : Option String → Option String → Option String
first_given none b = b
first_given (some a) b = some a

-- The product of the demonstration.
abbrev pub weather_product : Environment → String → Product
weather_product env public_gateway_url = record {
  id = "premium-weather";
  name = "Premium Weather API";
  description = "Pronóstico compacto con procedencia y hora de consulta";
  resource = followed_by public_gateway_url "/v1/weather/premium";
  upstream_url = none;
  price_atomic = 10_000;
  asset_mint = non_empty_or env.usdc_mint default_usdc_devnet_mint;
  pay_to = get_or env.merchant_wallet system_program;
  network = solana_devnet;
}

module _ (rt : Runtime) (is_uuid : String → Bool) (to_number : String → Option ℕ) where
  -- `loadGatewayConfig`.
  unfoldable pub load_gateway_config : Environment → Result ConfigError GatewayConfig
  load_gateway_config env = do
    reject_if (not (get_or env.meterkit_network "solana-devnet" == "solana-devnet"))
        unsupported_network
    port ←
        parse_between to_number bad_port 1 65_535
          (get_or (first_given env.port env.gateway_port) "3402")
    hops ← parse_between to_number bad_proxy_hops 0 3 (get_or env.trust_proxy_hops "0")
    url ← parse_public_url rt (get_or env.public_gateway_url "http://localhost:3402")
    active ← parse_between to_number bad_integer 1 100 (get_or env.pilot_max_active_per_owner "10")
    retention ←
        parse_between to_number bad_integer 7 730 (get_or env.pilot_evidence_retention_days "365")
    range ←
        parse_between to_number bad_integer 1 90 (get_or env.settlement_export_max_range_days "90")
    records ←
        parse_between to_number bad_integer 1 10_000
          (get_or env.settlement_export_max_records "10000")
    reject_if (not (is_product rt is_uuid (weather_product env url))) bad_product
    ok (record {
      port = port;
      public_gateway_url = url;
      trust_proxy_hops = hops;
      max_active_engagements_per_owner = active;
      evidence_retention_days = retention;
      max_range_days = range;
      max_records = records;
      product = weather_product env url;
    })

-- `requirePersistentMerchant`.
unfoldable pub require_persistent_merchant : Environment → Result ConfigError (Unit {0})
require_persistent_merchant env =
    reject_if
      (not (is_falsy env.database_url)
        && (is_falsy env.merchant_wallet || get_or env.merchant_wallet "" == system_program))
      merchant_required
