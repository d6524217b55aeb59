-- ===== src/Receipts.antt =====
-- Public receipts: `publicPaymentReceiptSchema` of packages/core/src/receipt.ts, and the upsert of
-- `savePublicReceipt` in packages/database/src/index.ts, where a receipt only moves forward. The
-- test of a UUID is the schema library's, and a parameter. The size limit of the column with the policy
-- decisions is left out.
pub mod Progress
mod Tests
use meterkit.Prelude.{
  ℕ, zero, suc, ◌+◌, String, ◌≡◌, Bool, true, false, not, ◌&&◌, ◌||◌, Option, none, some, List, [],
  ◌∷◌, ◌==◌, ltb, leb, nat_eq, length, all, any, find, if◌then◌else◌, modify_where, Result, ok, err,
  ◌>>=◌, ◌>>◌, reject_if,
}
use meterkit.Platform.{
  truthy, is_digest, Runtime, codes, in_range, is_solana_address, is_falsy, all_some, solana_devnet,
}
use meterkit.Policies.{PolicyDecision, is_decision, is_safe_code}
use meterkit.Spend.{numeric_bound}

pub data ReceiptDecision : Type 0 where
  accepted rejected unknown failed : ReceiptDecision

pub data Settlement : Type 0 where
  not_started pending confirmed finalized unknown failed : Settlement

-- `PublicPaymentReceipt`; the literal `schemaVersion` is left out.
pub record Receipt : Type 0 where
  pub receipt_id : String
  pub product_id : String
  pub network : String
  pub asset_mint : String
  pub amount_atomic : ℕ
  pub recipient : String
  pub payer : Option String
  pub resource : String
  pub decision : ReceiptDecision
  pub settlement : Settlement
  pub signature_fingerprint : Option String
  pub authorization_fingerprint : Option String
  pub payment_fingerprint : Option String
  pub explorer_url : Option String
  pub policy_decisions : List PolicyDecision
  pub created_at : ℕ
  pub updated_at : ℕ
  pub reason_code : String

-- /^sha256:[0-9a-f]{16}$/
unfoldable pub is_fingerprint : String → Bool
unfolding is_digest
is_fingerprint s = is_digest 16 s

module _ (rt : Runtime) (is_uuid : String → Bool) where
  -- What the schema accepts.
  unfoldable pub is_receipt : Receipt → Bool
  unfolding is_fingerprint
  is_receipt r =
      is_uuid r.receipt_id
      && (ltb 0 (rt.units r.product_id) && leb (rt.units r.product_id) 128)
      && r.network == solana_devnet
      && is_solana_address r.asset_mint
      && ltb 0 r.amount_atomic
      && is_solana_address r.recipient
      && all_some is_solana_address r.payer
      && (rt.is_url r.resource && leb (rt.units r.resource) 2_048)
      && all_some is_fingerprint r.signature_fingerprint
      && all_some is_fingerprint r.authorization_fingerprint
      && all_some is_fingerprint r.payment_fingerprint
      && all_some (λ u. rt.is_url u && leb (rt.units u) 2_048) r.explorer_url
      && (all (is_decision rt) r.policy_decisions && leb (length r.policy_decisions) 16)
      && leb r.created_at r.updated_at
      && is_safe_code r.reason_code

-- A row of `public_payment_receipts`: no column holds the fingerprints of the authorization and of
-- the payment.
pub record ReceiptRow : Type 0 where
  pub receipt_id : String
  pub product_id : String
  pub network : String
  pub asset_mint : String
  pub amount_atomic : ℕ
  pub recipient : String
  pub payer : Option String
  pub resource_url : String
  pub decision : ReceiptDecision
  pub settlement : Settlement
  pub signature_fingerprint : Option String
  pub explorer_url : Option String
  pub policy_decisions : List PolicyDecision
  pub reason_code : String
  pub created_at : ℕ
  pub updated_at : ℕ

pub data ReceiptError : Type 0 where
  invalid constraint_violated receipt_transition_rejected : ReceiptError

-- The values of the INSERT.
unfoldable pub to_row : Receipt → ReceiptRow
to_row r = record {
  receipt_id = r.receipt_id;
  product_id = r.product_id;
  network = r.network;
  asset_mint = r.asset_mint;
  amount_atomic = r.amount_atomic;
  recipient = r.recipient;
  payer = r.payer;
  resource_url = r.resource;
  decision = r.decision;
  settlement = r.settlement;
  signature_fingerprint = r.signature_fingerprint;
  explorer_url = r.explorer_url;
  policy_decisions = r.policy_decisions;
  reason_code = r.reason_code;
  created_at = r.created_at;
  updated_at = r.updated_at;
}

abbrev pub is_settled : Settlement → Bool
is_settled finalized = true
is_settled failed = true
is_settled _ = false

abbrev pub is_confirmed : Settlement → Bool
is_confirmed confirmed = true
is_confirmed _ = false

abbrev pub same_settlement : Settlement → Settlement → Bool
same_settlement not_started not_started = true
same_settlement pending pending = true
same_settlement confirmed confirmed = true
same_settlement finalized finalized = true
same_settlement unknown unknown = true
same_settlement failed failed = true
same_settlement _ _ = false

-- The WHERE of ON CONFLICT (receipt_id) DO UPDATE.
unfoldable pub may_update : ReceiptRow → ReceiptRow → Bool
may_update old excluded =
    old.product_id == excluded.product_id
    && old.network == excluded.network
    && old.asset_mint == excluded.asset_mint
    && nat_eq old.amount_atomic excluded.amount_atomic
    && old.recipient == excluded.recipient
    && old.resource_url == excluded.resource_url
    && (not (is_settled old.settlement) || same_settlement old.settlement excluded.settlement)
    && (not (is_confirmed old.settlement)
        || (is_confirmed excluded.settlement || is_settled excluded.settlement))
    && leb old.updated_at excluded.updated_at

-- The SET list.
unfoldable pub merge_row : ReceiptRow → ReceiptRow → ReceiptRow
merge_row excluded old = record old {
  decision = excluded.decision;
  settlement = excluded.settlement;
  signature_fingerprint = excluded.signature_fingerprint;
  explorer_url = excluded.explorer_url;
  policy_decisions = excluded.policy_decisions;
  reason_code = excluded.reason_code;
  updated_at = excluded.updated_at;
}

-- The CHECK on the two times, of the row that would be stored.
unfoldable pub is_timed : ReceiptRow → Bool
is_timed r = leb r.created_at r.updated_at

-- INSERT … ON CONFLICT … DO UPDATE: no row written is an error, and a row that breaks a CHECK too.
unfoldable pub upsert :
    ReceiptRow → List ReceiptRow → Option ReceiptRow → Result ReceiptError (List ReceiptRow)
unfolding may_update merge_row is_timed
upsert row rows none = ok (row ∷ rows)
upsert row rows (some old) =
    if not (may_update old row)
    then err receipt_transition_rejected
    else if not (is_timed (merge_row row old))
    then err constraint_violated
    else ok (modify_where (λ q. q.receipt_id == row.receipt_id) (merge_row row) rows)

module _ (rt : Runtime) (is_uuid : String → Bool) where
  -- `savePublicReceipt`. An amount beyond numeric(20, 0) is refused by the table.
  unfoldable pub save_public_receipt :
      Receipt → List ReceiptRow → Result ReceiptError (List ReceiptRow)
  unfolding is_receipt upsert to_row
  save_public_receipt r rows = do
    reject_if (not (is_receipt rt is_uuid r)) invalid
    reject_if (not (ltb r.amount_atomic numeric_bound)) constraint_violated
    upsert (to_row r) rows (find (λ q. q.receipt_id == r.receipt_id) rows)

-- `mapPublicReceipt`, before its schema.
unfoldable pub map_public_receipt : ReceiptRow → Receipt
map_public_receipt r = record {
  receipt_id = r.receipt_id;
  product_id = r.product_id;
  network = r.network;
  asset_mint = r.asset_mint;
  amount_atomic = r.amount_atomic;
  recipient = r.recipient;
  payer = truthy r.payer;
  resource = r.resource_url;
  decision = r.decision;
  settlement = r.settlement;
  signature_fingerprint = truthy r.signature_fingerprint;
  authorization_fingerprint = none;
  payment_fingerprint = none;
  explorer_url = truthy r.explorer_url;
  policy_decisions = r.policy_decisions;
  created_at = r.created_at;
  updated_at = r.updated_at;
  reason_code = r.reason_code;
}

module _ (rt : Runtime) (is_uuid : String → Bool) where
  -- `getPublicReceipt`: an error where the schema refuses the row.
  unfoldable pub get_public_receipt :
      String → List ReceiptRow → Result ReceiptError (Option Receipt)
  unfolding is_receipt map_public_receipt
  get_public_receipt id rows = elim (find (λ q. q.receipt_id == id) rows) [
    | none ↦ ok none
    | some row ↦
        if is_receipt rt is_uuid (map_public_receipt row)
        then ok (some (map_public_receipt row))
        else err invalid
  ]
