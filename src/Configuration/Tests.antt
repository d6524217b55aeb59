-- ===== src/Configuration/Tests.antt =====
-- Environments of the gateway.
use meterkit.Prelude.{ℕ, String, ◌≡◌, ◌≢◌, refl, Option, none, some, ◌==◌, if◌then◌else◌, ok, err}
use meterkit.Authorization.Tests.{platform, wallet, usdc}
use meterkit.Products.{is_product}
use meterkit.Products.Tests.{any_uuid}
use meterkit.Configuration.{
  Environment, GatewayConfig, without_slash, followed_by, parse_between, parse_public_url,
  weather_product, load_gateway_config, require_persistent_merchant, system_program,
  merchant_required, bad_port, bad_integer, unsupported_network,
}
use meterkit.Configuration.Bounding.{IsConfigured, persistent-IsConfigured}

abbrev number : String → Option ℕ
number s =
    if s == "3402"
    then some 3402
    else if s == "0"
    then some 0
    else if s == "10"
    then some 10
    else if s == "365"
    then some 365
    else if s == "90"
    then some 90
    else if s == "10000"
    then some 10_000
    else if s == "70000"
    then some 70_000
    else none

abbrev env : Environment
env = record {
  meterkit_network = none;
  port = none;
  gateway_port = none;
  trust_proxy_hops = none;
  public_gateway_url = some "https://api/";
  merchant_wallet = some wallet;
  usdc_mint = some usdc;
  database_url = some "postgres";
  pilot_max_active_per_owner = none;
  pilot_evidence_retention_days = none;
  settlement_export_max_range_days = none;
  settlement_export_max_records = none;
}

abbrev config : GatewayConfig
config = record {
  port = 3402;
  public_gateway_url = "https://api";
  trust_proxy_hops = 0;
  max_active_engagements_per_owner = 10;
  evidence_retention_days = 365;
  max_range_days = 90;
  max_records = 10_000;
  product = weather_product env "https://api";
}

code : Unit {0}
unfolding load_gateway_config parse_between parse_public_url without_slash followed_by is_product
    require_persistent_merchant
code = tt

load_test : load_gateway_config platform any_uuid number env ≡ ok config
unfolding code
load_test = refl

refusals_test :
    (load_gateway_config platform any_uuid number (record env { port = some "70000" })
      ≡ err bad_port)
    × (load_gateway_config platform any_uuid number
          (record env { pilot_evidence_retention_days = some "forever" })
        ≡ err bad_integer)
    × (load_gateway_config platform any_uuid number
          (record env { meterkit_network = some "solana-mainnet" })
        ≡ err unsupported_network)
    × (require_persistent_merchant (record env { merchant_wallet = some system_program })
        ≡ err merchant_required)
unfolding code
refusals_test = (refl, refl, refl, refl)

merchant_test : require_persistent_merchant env ≡ ok tt
unfolding code
merchant_test = refl

persistent-IsConfigured_example :
    IsConfigured platform any_uuid env config × (config.product.pay_to ≢ system_program)
persistent-IsConfigured_example =
    persistent-IsConfigured platform any_uuid number env config load_test merchant_test refl
