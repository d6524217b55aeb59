-- ===== src/Authorization/Tests.antt =====
-- Concrete runs of the guards of an authorization, over a platform with a toy URL parser.
use meterkit.Prelude.{
  ℕ, String, ◌≡◌, ◌↔◌, refl, true, false, none, some, List, [], ◌∷◌, ok, arith, pos, length,
}
use meterkit.Platform.{Url, Runtime, codes, normalize_resource, solana_devnet, is_solana_address}
use meterkit.Spend.{Allowance, Reservation, Ledger, consumed, active, finalized}
use meterkit.Spend.Invariant.{IsLedger}
use meterkit.Spend.Reserving.{IsReservable, holding}
use meterkit.Spend.History.{Call, run, run-empty-IsLedger, empty, saves}
use meterkit.Spend.Tests.{ledger_code, budget}
use meterkit.Authorization.{View, fixed, parse_view}
use meterkit.Authorization.Budget.{
  reserve, store_request, fingerprint, make_guard, ledger_store, consume, release,
}
use meterkit.Authorization.Checks.{
  BudgetRequest, IsPermitted, check_budget, check_scope, check_window, check_amount,
}
use meterkit.Authorization.Spending.{
  check_spend, as_spend, is_expired, check_budget-check_spend, evaluate_agent_spend,
}
use meterkit.Authorization.Hosted.{HostedAuthorization, hosted_view}
use meterkit.Authorization.Fixed.{
  FixedInput, fixed_view, normalize_scopes, build_fixed_authorization_view,
}
use meterkit.Authorization.Guarded.{reserve-guarded}

-- A platform for the tests: each text is a URL that prints as itself.
abbrev url_of : String → Url
url_of s = record {
  protocol = "https:";
  username = "";
  password = "";
  hostname = "api";
  port = "";
  pathname = s;
  search = "";
  hash = "";
}

abbrev pub platform : Runtime
platform = record {
  parse_url = λ s. some (url_of s);
  print_url = λ u. u.pathname;
  set_pathname = λ u p. record u { pathname = p };
  is_url = λ s. true;
  units = λ s. length (codes s);
  sha256_hex = λ s. s;
}

abbrev pub agent : String
agent = "AgentAgentAgentAgentAgentAgentAgent1"

abbrev pub wallet : String
wallet = "WaaaetWaaaetWaaaetWaaaetWaaaetWaaaet"

abbrev pub usdc : String
usdc = "UsdcUsdcUsdcUsdcUsdcUsdcUsdcUsdcUsdc"

abbrev pub view : View
view = record {
  authorization_address = "A";
  program = agent;
  network = solana_devnet;
  kind = fixed;
  owner = wallet;
  delegate = agent;
  asset_mint = usdc;
  recipient_scope = none;
  resource_scopes = "https://api/a" ∷ [];
  per_request_limit_atomic = 60;
  aggregate_limit_atomic = 100;
  spent_atomic = 10;
  starts_at = 0;
  expires_at = 1000;
  status = active;
  creation_transaction = none;
  revocation_transaction = none;
  observed_commitment = finalized;
  observed_at = 5;
}

abbrev wish : BudgetRequest
wish = record {
  payer = wallet;
  network = solana_devnet;
  asset_mint = usdc;
  recipient = agent;
  resource = "https://api/a/";
  amount_atomic = pos 50;
  payment_json = "payment";
}

-- What the runs compute with.
unfoldable pub guard_code : Unit {0}
unfolding check_budget normalize_resource check_spend as_spend parse_view evaluate_agent_spend
    reserve make_guard check_scope check_window check_amount ledger_store consume release
    fingerprint is_solana_address normalize_scopes
guard_code = tt

-- A trailing slash does not matter to the scope.
same_resource : normalize_resource platform "https://api/a/" ≡ "https://api/a"
unfolding guard_code
same_resource = refl

passes : check_budget platform view agent 20 wish ≡ ok tt
unfolding guard_code
passes = refl

check_budget-check_spend_example : (check_budget platform view agent 20 wish ≡ ok tt) ↔ (
    (check_spend platform view (as_spend agent wish) 20 ≡ ok tt) × (is_expired view.status ≡ false))
check_budget-check_spend_example =
    check_budget-check_spend platform view agent 20 wish (omega arith)

-- The allowance of the ledger of the tests, with the addresses of the view.
abbrev opening : List (ℕ × Call)
opening =
    (
      1,
      saves (record budget {
        address = "A";
        owner_wallet = wallet;
        delegate_wallet = agent;
        mint = usdc;
      }),
    )
    ∷ []

abbrev pub funded : Ledger
funded = run empty opening

pub funded-IsLedger : IsLedger funded
funded-IsLedger = run-empty-IsLedger opening

reserve-guarded_example :
    IsPermitted platform view agent 20 wish
    × ((a : Allowance) × IsReservable 20 (store_request platform view 20 "r1" wish) funded a)
    × IsLedger (holding (store_request platform view 20 "r1" wish) funded)
unfolding guard_code ledger_code holding
reserve-guarded_example =
    reserve-guarded platform view agent 20 "r1" wish funded _
      (record {
        reservation_id = "r1";
        authorization_fingerprint = "sha256:A";
        payment_fingerprint = "sha256:payment";
      })
      funded-IsLedger refl

-- A row that has spent 60 of 100, and the reservation that did.
abbrev row : Allowance
row = record {
  address = wallet;
  owner_wallet = wallet;
  delegate_wallet = agent;
  mint = usdc;
  max_atomic = 100;
  per_request_atomic = 60;
  spent_atomic = 60;
  reserved_atomic = 0;
  status = active;
  recipient_scope = none;
  resource_scopes = "https://api/a" ∷ [];
  starts_at = 0;
  expires_at = 1000;
  revoked_at = none;
  signature = none;
  observed_commitment = finalized;
  observed_at = 5;
  revocation_signature = none;
}

abbrev spending : List Reservation
spending =
    record {
      reservation_id = "r1";
      allowance_address = wallet;
      payment_key = "k1";
      amount_atomic = 60;
      status = consumed;
      expires_at = 50;
    }
    ∷ []

abbrev hosted : HostedAuthorization
hosted = record { view = hosted_view 20 row; reserved_atomic = 0; remaining_capacity_atomic = 40 }

abbrev plan : FixedInput
plan = record {
  authorization_address = wallet;
  owner = wallet;
  delegate = agent;
  asset_mint = usdc;
  recipient_scope = none;
  resource_scopes = "https://api/a/" ∷ [];
  per_request_limit_atomic = 60;
  aggregate_limit_atomic = 100;
  spent_atomic = 10;
  starts_at = 0;
  expires_at = 1000;
  status = none;
  creation_transaction = none;
  revocation_transaction = none;
  observed_commitment = finalized;
  observed_at = 5;
}

abbrev planned : View
planned = fixed_view plan ("https://api/a" ∷ [])

builds : build_fixed_authorization_view platform plan ≡ some planned
unfolding guard_code build_fixed_authorization_view
builds = refl
