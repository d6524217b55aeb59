-- ===== src/Receipts/Tests.antt =====
-- Runs of the receipt store at concrete inputs.
use meterkit.Prelude.{String, ◌≡◌, refl, Bool, true, none, some, [], ◌∷◌, ok, err}
use meterkit.Platform.{solana_devnet, is_solana_address}
use meterkit.Policies.{is_safe_code}
use meterkit.Policies.Tests.{platform, address}
use meterkit.Receipts.{
  Receipt, ReceiptRow, accepted, confirmed, finalized, unknown, receipt_transition_rejected,
  is_fingerprint, save_public_receipt, get_public_receipt, to_row,
}
use meterkit.Receipts.Progress.{HasReceipt, IsForward, save_all, save_all-IsForward}

abbrev any_uuid : String → Bool
any_uuid s = true

abbrev receipt : Receipt
receipt = record {
  receipt_id = "r1";
  product_id = "api";
  network = solana_devnet;
  asset_mint = address;
  amount_atomic = 5;
  recipient = address;
  payer = none;
  resource = "https://api/a";
  decision = accepted;
  settlement = confirmed;
  signature_fingerprint = some "sha256:0123456789abcdef";
  authorization_fingerprint = none;
  payment_fingerprint = none;
  explorer_url = none;
  policy_decisions = [];
  created_at = 10;
  updated_at = 11;
  reason_code = "SETTLED";
}

abbrev final : Receipt
final = record receipt { settlement = finalized; updated_at = 12 }

receipt_code : Unit {0}
unfolding save_public_receipt get_public_receipt is_solana_address is_safe_code is_fingerprint
    to_row save_all
receipt_code = tt

-- A finalized receipt is not set back to 'unknown', and a receipt reads back as it was saved.
stays_test :
    (save_public_receipt platform any_uuid
        (record receipt { settlement = unknown; updated_at = 13 })
        (save_all platform any_uuid [] (receipt ∷ final ∷ []))
      ≡ err receipt_transition_rejected)
    × (get_public_receipt platform any_uuid "r1"
          (save_all platform any_uuid [] (receipt ∷ final ∷ []))
        ≡ ok (some final))
unfolding receipt_code
stays_test = (refl, refl)

save_all-IsForward_example :
    (new : ReceiptRow) × HasReceipt "r1"
      (save_all platform any_uuid (to_row receipt ∷ []) (final ∷ []))
      new
    × IsForward (to_row receipt) new
unfolding receipt_code
save_all-IsForward_example =
    save_all-IsForward platform any_uuid (final ∷ []) "r1" (to_row receipt ∷ []) (to_row receipt)
      refl
