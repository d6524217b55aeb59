-- ===== src/Settlement/Tests.antt =====
-- Runs of the settlement validator at concrete inputs.
use meterkit.Prelude.{ℕ, zero, suc, String, ◌≡◌, ◌↔◌, refl, true, some, [], ◌∷◌, ok, err, arith}
use meterkit.Settlement.{
  TokenBalance, Meta, Reply, absent, found, Transfer, transaction_not_found, transfer_mismatch,
  validate,
}
use meterkit.Settlement.Validating.{IsFoundAt, validate-ok_iff}

abbrev pub balance : String → ℕ → TokenBalance
balance wallet n = record { mint = "usdc"; owner = some wallet; amount = n }

abbrev moved : Meta
moved = record {
  err_is_null = true;
  pre_token_balances = balance "payer" 90 ∷ balance "seller" 7 ∷ [];
  post_token_balances = balance "payer" 40 ∷ balance "seller" 57 ∷ [];
}

-- The transaction shows at the third request.
abbrev request : ℕ → String → Reply
request zero signature = absent
request (suc zero) signature = absent
request _ signature = found moved

abbrev transfer : Transfer
transfer = record {
  signature = "sig";
  payer = "payer";
  pay_to = "seller";
  mint = "usdc";
  amount_atomic = 50;
}

validate_test :
    (validate request 2 transfer ≡ err transaction_not_found)
    × (validate request 3 (record transfer { amount_atomic = 49 }) ≡ err transfer_mismatch)
    × (validate request 0 transfer ≡ ok tt)
unfolding validate
validate_test = (refl, refl, refl)

validate-ok_iff_example : (validate request 3 transfer ≡ ok tt) ↔ IsFoundAt request transfer 0 3
validate-ok_iff_example = validate-ok_iff request 3 transfer (omega arith)
