-- ===== src/Gateway/Tests.antt =====
-- Runs of the gateway at concrete inputs.
use meterkit.Prelude.{ℕ, String, ◌≡◌, refl, false, Option, none, some, List, [], ◌∷◌, map, and_then}
use meterkit.Platform.{subscriptions_program, is_solana_address, is_solana_transaction}
use meterkit.Authorization.Tests.{platform, agent, wallet, usdc}
use meterkit.Spend.{active, revoke_allowance}
use meterkit.Spend.History.{empty}
use meterkit.Spend.Tests.{ledger_code}
use meterkit.Products.{Product, get_session_owner, is_product, create_idempotent}
use meterkit.Products.Tests.{product, any_uuid}
use meterkit.Challenges.{Challenge, table_store, consume_entry, verify, accepts}
use meterkit.Challenges.Tests.{toy}
use meterkit.Upstream.{assert_allowed_upstream}
use meterkit.Upstream.Tests.{texts}
use meterkit.Gateway.Session.{Database, session_owner}
use meterkit.Gateway.Receipt.{Rpc, verify_allowance_receipt, verify_revocation_receipt}
use meterkit.Gateway.Allowances.{
  answers, AllowanceBody, check_allowance, allowance_record, post_allowance, post_revoked, allows,
  revokes, handle,
}
use meterkit.Gateway.Isolation.{IsIsolated, handle-IsIsolated}
use meterkit.Gateway.Recording.{IsRecorded, post_allowance-IsRecorded}
use meterkit.Gateway.Creating.{
  Auth, Surroundings, Gateway, post_product, check_product, is_idempotency_key,
}
use meterkit.Gateway.Signing.{IsCreated, post_product-IsCreated}

-- A wallet of 32 characters, as the toy key needs it.
abbrev merchant : String
merchant = "WaaaetWaaaetWaaaetWaaaetWaaaetWa"

abbrev token : String
token = "TokenTokenTokenTokenTokenTokenTokenTokenTok"

abbrev header : Option String
header = some "Bearer TokenTokenTokenTokenTokenTokenTokenTokenTok"

abbrev pub sold : Product
sold = record product {
  pay_to = agent;
  resource = "https://api/a";
  asset_mint = usdc;
  upstream_url = some "https://api";
}

abbrev database : Database
database = record {
  ledger = empty;
  catalogue = record { products = []; idempotency_keys = [] };
  sessions = record { token_hash = token; owner_wallet = wallet; expires_at = 100 } ∷ [];
}

abbrev pub seen : Rpc
seen signature = some (record {
  has_error = false;
  account_keys = wallet ∷ agent ∷ usdc ∷ subscriptions_program ∷ [];
})

abbrev pub at_fifty : String → Option ℕ
at_fifty s = some 50

abbrev signature : String
signature = "SigSigSigSigSigSigSigSigSigSigSigSigSigSigSigSigSigSigSigSigSigSig"

abbrev body : AllowanceBody
body = record {
  address = some agent;
  delegate_wallet = some agent;
  mint = some usdc;
  max_atomic = some "100";
  expires_at = some "soon";
  signature = some signature;
}

gateway_code : Unit {0}
unfolding ledger_code session_owner verify_allowance_receipt verify_revocation_receipt
    check_allowance allowance_record post_allowance post_revoked handle is_solana_address
    is_solana_transaction get_session_owner
gateway_code = tt

records :
    (db : Database) × (post_allowance platform sold at_fifty seen 10 header body (some database)
      ≡ (some db, answers 201 "recorded"))
unfolding gateway_code
records = (_, refl)

-- Too much, too late, and without a session.
post_test :
    (post_allowance platform sold at_fifty seen 10 header
        (record body { max_atomic = some "100000001" })
        (some database)
      ≡ (some database, answers 422 "invalid_allowance"))
    × (post_allowance platform sold at_fifty seen 50 header body (some database)
        ≡ (some database, answers 422 "invalid_allowance"))
    × (post_allowance platform sold at_fifty seen 10 none body (some database)
        ≡ (some database, answers 401 "wallet_session_required"))
unfolding gateway_code
post_test = (refl, refl, refl)

post_allowance-IsRecorded_example :
    IsRecorded platform sold at_fifty seen 10 header body database records.0
post_allowance-IsRecorded_example =
    post_allowance-IsRecorded platform sold at_fifty seen 10 header body database records.0
      records.1

handle-IsIsolated_example :
    IsIsolated (session_owner platform 20 header (some records.0)) records.0 (
      handle platform sold at_fifty seen 20
        (revokes header (some agent) (some signature))
        (some records.0))
handle-IsIsolated_example =
    handle-IsIsolated platform sold at_fifty seen 20 (revokes header (some agent) (some signature))
      records.0

-- After a revocation the receipt of the first delegation makes the allowance active again.
reactivated_test :
    and_then
      (handle platform sold at_fifty seen 30
        (allows header body)
        (handle platform sold at_fifty seen 20
          (revokes header (some agent) (some signature))
          (some records.0)).0).0
      (λ db. some (map (λ a. a.status) db.ledger.allowances))
    ≡ some (active ∷ [])
unfolding gateway_code records revoke_allowance
reactivated_test = refl

abbrev surroundings : Surroundings (List Challenge)
surroundings = record {
  rt = platform;
  crypto = toy;
  texts = texts;
  is_uuid = any_uuid;
  challenges = table_store;
  max_active = 5;
  upstream_hosts = "api" ∷ [];
  public_gateway_url = "https://meterkit";
  product_json = λ p. p.id;
  wallet_json = λ s. s;
}

abbrev challenge : Challenge
challenge = record {
  nonce_hash = "n1";
  wallet = merchant;
  message = "sell";
  request_hash = "weather-api";
  idempotency_key = "key-0001";
  expires_at = 100;
}

abbrev gateway : Gateway (List Challenge)
gateway = record { open_challenges = challenge ∷ []; database = some database }

abbrev auth : Auth
auth = record { nonce = "n1"; signed_message = "sell"; signature = "signature" }

abbrev offered : Product
offered = record sold { pay_to = merchant }

creates :
    (g : Gateway (List Challenge)) × (post_product surroundings 10 "u1"
        (some offered)
        (some "key-0001")
        (some auth)
        gateway
      ≡ (g, answers 201 "weather-api"))
unfolding gateway_code post_product check_product is_idempotency_key verify accepts table_store
    consume_entry assert_allowed_upstream is_product create_idempotent
creates = (_, refl)

post_product-IsCreated_example : IsCreated surroundings 10 "u1" gateway creates.0
post_product-IsCreated_example =
    post_product-IsCreated surroundings 10 "u1" (some offered) (some "key-0001") (some auth) gateway
      creates.0 "weather-api" creates.1
