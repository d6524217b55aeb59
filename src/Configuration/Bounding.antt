-- ===== src/Configuration/Bounding.antt =====
-- What holds of a configuration that apps/gateway/src/config.ts has read.
use meterkit.Prelude.{
  ℕ, String, ◌≡◌, ◌≢◌, ◌≤◌, refl, Bool, true, false, not, ◌&&◌, ◌||◌, ◌==◌, leb, Option, none, some,
  Result, ok, arith, reject_if, ◌>>=◌, ◌>>◌, reject_if-ok, or_throw-ok, bind-ok, eq_iff,
}
use meterkit.Platform.{Runtime, Url, is_falsy}
use meterkit.Spend.{get_or}
use meterkit.Products.{is_product}
use meterkit.Configuration.{
  Environment, GatewayConfig, ConfigError, parse_between, parse_public_url, without_slash,
  is_unprotected, first_given, weather_product, load_gateway_config, require_persistent_merchant,
  system_program, bad_port, bad_proxy_hops, bad_integer, unsupported_network, bad_product,
  invalid_url, url_with_credentials, url_not_https,
}

-- The address comes from a URL without credentials, query or fragment that uses HTTPS, or HTTP on the
-- local host.
abbrev pub IsProtected : Runtime → String → String → Type 0
IsProtected rt text address =
    (url : Url) × (rt.parse_url text ≡ some url)
    × ((url.username == "" && url.password == "" && url.search == "" && url.hash == "") ≡ true)
    × (is_unprotected url ≡ false)
    × (address ≡ without_slash (rt.print_url url))

pub record IsConfigured (rt : Runtime) (is_uuid : String → Bool) (env : Environment)
    (c : GatewayConfig) : Type 0 where
  pub port : (1 ≤ c.port) × (c.port ≤ 65_535)
  pub hops : c.trust_proxy_hops ≤ 3
  pub active : (1 ≤ c.max_active_engagements_per_owner) × (c.max_active_engagements_per_owner ≤ 100)
  pub retention : (7 ≤ c.evidence_retention_days) × (c.evidence_retention_days ≤ 730)
  pub range : (1 ≤ c.max_range_days) × (c.max_range_days ≤ 90)
  pub records : (1 ≤ c.max_records) × (c.max_records ≤ 10_000)
  pub protected :
      IsProtected rt (get_or env.public_gateway_url "http://localhost:3402") c.public_gateway_url
  pub accepted : is_product rt is_uuid c.product ≡ true
  pub sold : c.product ≡ weather_product env c.public_gateway_url

parse_between-bounds :
    (to_number : String → Option ℕ) (e : ConfigError) (lo hi : ℕ) (value : String) (n : ℕ)
    → parse_between to_number e lo hi value ≡ ok n
    → (lo ≤ n) × (n ≤ hi)
unfolding parse_between
parse_between-bounds to_number e lo hi value n h =
    let (m, _, h₁) = or_throw-ok (to_number value) e h in
    let (within, h₂) = reject_if-ok (not (leb lo m && leb m hi)) e h₁ in
    let same : m ≡ n = cc h₂ in (ground (arith, within, same), ground (arith, within, same))

parse_public_url-IsProtected :
    (rt : Runtime) (value address : String)
    → parse_public_url rt value ≡ ok address
    → IsProtected rt value address
unfolding parse_public_url
parse_public_url-IsProtected rt value address h =
    let (url, e, h₁) = or_throw-ok (rt.parse_url value) invalid_url h in
    let (bare, h₂) =
      reject_if-ok
        (not (url.username == "" && url.password == "" && url.search == "" && url.hash == ""))
        url_with_credentials h₁ in
    let (protected, h₃) = reject_if-ok (is_unprotected url) url_not_https h₂ in
    (url, e, ground arith, protected, cc h₃)

module _ (rt : Runtime) (to_number : String → Option ℕ) {X : Type 0} (x : X) where
  -- The first values of a chain, and what is done with them.
  opening-ok :
      (port_text hops_text url_text : String) (k : ℕ → ℕ → String → Result ConfigError X)
      → (parse_between to_number bad_port 1 65_535 port_text >>= λ port.
          parse_between to_number bad_proxy_hops 0 3 hops_text >>= λ hops.
          parse_public_url rt url_text >>= λ url. k port hops url)
        ≡ ok x
      → (port : ℕ) × (hops : ℕ) × (url : String) × ((1 ≤ port) × (port ≤ 65_535))
        × (hops ≤ 3)
        × IsProtected rt url_text url
        × (k port hops url ≡ ok x)
  opening-ok port_text hops_text url_text k h =
      let (port, p, h₁) = bind-ok (parse_between to_number bad_port 1 65_535 port_text) h in
      let (hops, o, h₂) = bind-ok (parse_between to_number bad_proxy_hops 0 3 hops_text) h₁ in
      let (url, u, h₃) = bind-ok (parse_public_url rt url_text) h₂ in
      (
        port,
        hops,
        url,
        parse_between-bounds to_number bad_port 1 65_535 port_text port p,
        (parse_between-bounds to_number bad_proxy_hops 0 3 hops_text hops o).1,
        parse_public_url-IsProtected rt url_text url u,
        h₃,
      )

  -- Two values in a row.
  pair-ok :
      (lo hi lo' hi' : ℕ) (text text' : String) (k : ℕ → ℕ → Result ConfigError X)
      → (parse_between to_number bad_integer lo hi text >>= λ n.
          parse_between to_number bad_integer lo' hi' text' >>= λ n'. k n n')
        ≡ ok x
      → (n : ℕ) × (n' : ℕ) × ((lo ≤ n) × (n ≤ hi)) × ((lo' ≤ n') × (n' ≤ hi')) × (k n n' ≡ ok x)
  pair-ok lo hi lo' hi' text text' k h =
      let (n, e, h₁) = bind-ok (parse_between to_number bad_integer lo hi text) h in
      let (n', e', h₂) = bind-ok (parse_between to_number bad_integer lo' hi' text') h₁ in
      (
        n,
        n',
        parse_between-bounds to_number bad_integer lo hi text n e,
        parse_between-bounds to_number bad_integer lo' hi' text' n' e',
        h₂,
      )

module _ (rt : Runtime) (is_uuid : String → Bool) (to_number : String → Option ℕ)
    (env : Environment) (c : GatewayConfig) where
  abbrev made : ℕ → ℕ → String → ℕ → ℕ → ℕ → ℕ → GatewayConfig
  made port hops url active retention range records = record {
    port = port;
    public_gateway_url = url;
    trust_proxy_hops = hops;
    max_active_engagements_per_owner = active;
    evidence_retention_days = retention;
    max_range_days = range;
    max_records = records;
    product = weather_product env url;
  }

  abbrev finish : ℕ → ℕ → String → ℕ → ℕ → ℕ → ℕ → Result ConfigError GatewayConfig
  finish port hops url active retention range records =
      reject_if (not (is_product rt is_uuid (weather_product env url))) bad_product
      >> ok (made port hops url active retention range records)

  finish-ok :
      (port hops : ℕ) (url : String) (active retention range records : ℕ)
      → finish port hops url active retention range records ≡ ok c
      → (is_product rt is_uuid (weather_product env url) ≡ true)
        × (c ≡ made port hops url active retention range records)
  finish-ok port hops url active retention range records h =
      let (accepted, h₁) =
        reject_if-ok (not (is_product rt is_uuid (weather_product env url))) bad_product h in
      (ground arith, cc h₁)

  load-IsConfigured :
      load_gateway_config rt is_uuid to_number env ≡ ok c → IsConfigured rt is_uuid env c
  unfolding load_gateway_config
  load-IsConfigured h =
      let (_, h₀) =
        reject_if-ok (not (get_or env.meterkit_network "solana-devnet" == "solana-devnet"))
          unsupported_network h in
      let (port, hops, url, p, o, u, h₁) =
        opening-ok rt to_number c (get_or (first_given env.port env.gateway_port) "3402")
          (get_or env.trust_proxy_hops "0") (get_or env.public_gateway_url "http://localhost:3402")
          _ h₀ in
      let (active, retention, a, t, h₂) =
        pair-ok rt to_number c 1 100 7 730 (get_or env.pilot_max_active_per_owner "10")
          (get_or env.pilot_evidence_retention_days "365") _ h₁ in
      let (range, records, g, s, h₃) =
        pair-ok rt to_number c 1 90 1 10_000 (get_or env.settlement_export_max_range_days "90")
          (get_or env.settlement_export_max_records "10000") (finish port hops url active retention)
          h₂ in
      let (accepted, same) = finish-ok port hops url active retention range records h₃ in
      rw same (record {
        port = p;
        hops = o;
        active = a;
        retention = t;
        range = g;
        records = s;
        protected = u;
        accepted = accepted;
        sold = refl;
      })

  paid_to :
      IsConfigured rt is_uuid env c
      → require_persistent_merchant env ≡ ok tt
      → is_falsy env.database_url ≡ false
      → c.product.pay_to ≢ system_program
  unfolding require_persistent_merchant
  paid_to w h d e =
      let wallet : get_or env.merchant_wallet system_program ≡ system_program = rw w.sold at e in
      go env.merchant_wallet (ground (arith, h, d)) wallet
    where
      go :
          (m : Option String)
          → (is_falsy m || get_or m "" == system_program) ≡ false
          → get_or m system_program ≢ system_program
      go none f e = cc
      go (some m) f e =
          let absurd : false ≡ true = ground (arith, (eq_iff m system_program).1 e) in cc

  -- A gateway that starts with a database has a port from 1 to 65535, at most 3 proxies, limits in their
  -- ranges, an address without credentials that uses HTTPS outside the local host, a product that the
  -- schema accepts, at that address, and a merchant that is not the system program.
  pub persistent-IsConfigured :
      load_gateway_config rt is_uuid to_number env ≡ ok c
      → require_persistent_merchant env ≡ ok tt
      → is_falsy env.database_url ≡ false
      → IsConfigured rt is_uuid env c × (c.product.pay_to ≢ system_program)
  persistent-IsConfigured h g d = (load-IsConfigured h, paid_to (load-IsConfigured h) g d)
