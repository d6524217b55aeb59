-- ===== src/Gateway/Allowances.antt =====
-- The handlers on allowances of apps/gateway/src/server.ts, with `exportHostedAllowanceMetadata` and
-- `deleteHostedAllowanceMetadata`. A request comes as the fields that its handler reads, where a field of
-- another type than text is missing.
use meterkit.Prelude.{
  ℕ, ◌+◌, ◌-◌, ◌*◌, String, Bool, true, false, not, ◌&&◌, ◌||◌, ◌==◌, ltb, leb, Option, none, some,
  List, [], ◌∷◌, map, all, and_then, if◌then◌else◌, Result, ok, err,
}
use meterkit.Platform.{Runtime, codes, in_range, truthy, is_solana_address, is_solana_transaction}
use meterkit.Products.{Product}
use meterkit.Spend.{
  Ledger, AllowanceRecord, SpendError, active, finalized, save_allowance, list_allowances_for_owner,
  delete_allowance_metadata, revoke_allowance, begin_allowance_revocation,
}
use meterkit.Authorization.Hosted.{HostedAuthorization, to_hosted_authorization}
use meterkit.Gateway.Session.{Database, signed_in}
use meterkit.Gateway.Receipt.{Rpc, verify_allowance_receipt, verify_revocation_receipt}

-- A status with the error or the status of its body. `thrown` is answered by the framework.
pub data Answer : Type 0 where
  answers : (status : ℕ) → (body : String) → Answer
  thrown : Answer

pub record AllowanceBody : Type 0 where
  pub address : Option String
  pub delegate_wallet : Option String
  pub mint : Option String
  pub max_atomic : Option String
  pub expires_at : Option String
  pub signature : Option String

abbrev pub is_digit : ℕ → Bool
is_digit c = in_range b'0' b'9' c

abbrev pub digits : ℕ → List ℕ → ℕ
digits n [] = n
digits n (c ∷ cs) = digits (n * 10 + (c - 48)) cs

-- /^[1-9]\d*$/, and `BigInt`; 0 where it does not match.
abbrev pub positive_number : List ℕ → ℕ
positive_number [] = 0
positive_number (c ∷ cs) = if in_range b'1' b'9' c && all is_digit cs then digits 0 (c ∷ cs) else 0

abbrev pub parse_atomic : Option String → ℕ
parse_atomic none = 0
parse_atomic (some s) = positive_number (codes s)

abbrev pub address_of : Option String → Option String
address_of none = none
address_of (some s) = if is_solana_address s then some s else none

abbrev pub transaction_of : Option String → Option String
transaction_of none = none
transaction_of (some s) = if is_solana_transaction s then some s else none

-- The fields that passed the checks.
pub record AllowanceRequest : Type 0 where
  pub address : String
  pub delegate_wallet : String
  pub mint : String
  pub max_atomic : ℕ
  pub expires_at : ℕ
  pub signature : String

abbrev pub keep_ledger : Database → Result SpendError Ledger → Answer → Option Database × Answer
keep_ledger db (ok l) answer = (some (record db { ledger = l }), answer)
keep_ledger db (err e) answer = (some db, thrown)

abbrev pub changed : Database → Ledger × Bool → Answer → Answer → Option Database × Answer
changed db (l, true) yes_ no_ = (some (record db { ledger = l }), yes_)
changed db (l, false) yes_ no_ = (some (record db { ledger = l }), no_)

module _ (rt : Runtime) (product : Product) (parse_date : String → Option ℕ) (rpc : Rpc) where
  -- The token, the amount and the expiry.
  unfoldable pub within_limits : ℕ → AllowanceRequest → Option AllowanceRequest
  within_limits now q =
      if not (q.mint == product.asset_mint)
        || leb q.max_atomic 0
        || ltb 100_000_000 q.max_atomic
        || leb q.expires_at now
        || ltb (now + 90 * 86_400_000) q.expires_at
      then none
      else some q

  -- The checks of POST /v1/allowances: none where one of them fails.
  unfoldable pub check_allowance : ℕ → AllowanceBody → Option AllowanceRequest
  unfolding within_limits
  check_allowance now b = and_then (address_of b.address) (λ address.
      and_then (address_of b.delegate_wallet) (λ delegate_wallet. and_then b.mint (λ mint.
        and_then (and_then b.expires_at parse_date) (λ expires_at.
          and_then (transaction_of b.signature) (λ signature. within_limits now (record {
            address = address;
            delegate_wallet = delegate_wallet;
            mint = mint;
            max_atomic = parse_atomic b.max_atomic;
            expires_at = expires_at;
            signature = signature;
          }))))))

  -- The record that is saved.
  unfoldable pub allowance_record : ℕ → String → AllowanceRequest → AllowanceRecord
  allowance_record now owner q = record {
    address = q.address;
    owner_wallet = owner;
    delegate_wallet = q.delegate_wallet;
    mint = q.mint;
    max_atomic = q.max_atomic;
    expires_at = q.expires_at;
    revoked_at = none;
    signature = some q.signature;
    per_request_atomic = some q.max_atomic;
    status = some active;
    recipient_scope = some product.pay_to;
    resource_scopes = some (product.resource ∷ []);
    starts_at = some now;
    observed_commitment = some finalized;
    observed_at = some now;
    revocation_signature = none;
  }

  abbrev pub record_allowance :
      ℕ → String × Database → Option AllowanceRequest → Option Database × Answer
  record_allowance now (owner, db) none = (some db, answers 422 "invalid_allowance")
  record_allowance now (owner, db) (some q) =
      if verify_allowance_receipt rpc q.signature owner q.address q.delegate_wallet q.mint
      then keep_ledger db (save_allowance now (allowance_record now owner q) db.ledger)
          (answers 201 "recorded")
      else (some db, answers 422 "allowance_receipt_not_verified")

  abbrev pub post_signed_in :
      ℕ → AllowanceBody → Option Database → Option (String × Database) → Option Database × Answer
  post_signed_in now b product_store none = (product_store, answers 401 "wallet_session_required")
  post_signed_in now b product_store (some who) = record_allowance now who (check_allowance now b)

  -- POST /v1/allowances.
  unfoldable pub post_allowance :
      ℕ → Option String → AllowanceBody → Option Database → Option Database × Answer
  post_allowance now authorization b product_store =
      post_signed_in now b product_store (signed_in rt now authorization product_store)

  abbrev pub revoke_received :
      ℕ → String × Database → Option String → Option String → Option Database × Answer
  revoke_received now (owner, db) none signature =
      (some db, answers 422 "invalid_allowance_address")
  revoke_received now (owner, db) (some address) none =
      (some db, answers 422 "revocation_receipt_not_verified")
  revoke_received now (owner, db) (some address) (some signature) =
      if verify_revocation_receipt rpc signature owner address
      then changed db (revoke_allowance now owner address (some signature) db.ledger)
          (answers 200 "revoked") (answers 404 "allowance_not_found")
      else (some db, answers 422 "revocation_receipt_not_verified")

  abbrev pub revoke_signed_in :
      ℕ
      → Option String
      → Option String
      → Option Database
      → Option (String × Database)
      → Option Database × Answer
  revoke_signed_in now address signature product_store none =
      (product_store, answers 401 "wallet_session_required")
  revoke_signed_in now address signature product_store (some who) =
      revoke_received now who (address_of address) (transaction_of signature)

  -- POST /v1/allowances/:address/revoked.
  unfoldable pub post_revoked :
      ℕ → Option String → Option String → Option String → Option Database → Option Database × Answer
  post_revoked now authorization address signature product_store =
      revoke_signed_in now address signature product_store
        (signed_in rt now authorization product_store)

  abbrev pub pending_signed_in :
      Option String → Option Database → Option (String × Database) → Option Database × Answer
  pending_signed_in address product_store none =
      (product_store, answers 401 "wallet_session_required")
  pending_signed_in none product_store (some (owner, db)) =
      (some db, answers 409 "revocation_not_started")
  pending_signed_in (some address) product_store (some (owner, db)) =
      changed db (begin_allowance_revocation owner address db.ledger)
        (answers 202 "revocation_pending") (answers 409 "revocation_not_started")

  -- POST /v1/allowances/:address/revocation-pending.
  unfoldable pub post_revocation_pending :
      ℕ → Option String → Option String → Option Database → Option Database × Answer
  post_revocation_pending now authorization address product_store =
      pending_signed_in (truthy address) product_store
        (signed_in rt now authorization product_store)

  abbrev pub delete_signed_in :
      Option String → Option Database → Option (String × Database) → Option Database × Answer
  delete_signed_in address product_store none = (product_store, answers 401 "")
  delete_signed_in none product_store (some (owner, db)) = (some db, answers 404 "")
  delete_signed_in (some address) product_store (some (owner, db)) =
      changed db (delete_allowance_metadata owner address db.ledger) (answers 204 "")
        (answers 404 "")

  -- DELETE /v1/allowances/:address/metadata, `deleteHostedAllowanceMetadata`.
  unfoldable pub delete_metadata :
      ℕ → Option String → Option String → Option Database → Option Database × Answer
  delete_metadata now authorization address product_store =
      delete_signed_in (truthy address) product_store (signed_in rt now authorization product_store)

  -- GET /v1/allowances, and `exportHostedAllowanceMetadata` without the time of the export: none where no
  -- session is there, and for each row none where its view throws.
  unfoldable pub list_allowances :
      ℕ → Option String → Option Database → Option (List (Option HostedAuthorization))
  list_allowances now authorization product_store =
      and_then (signed_in rt now authorization product_store) (λ who.
        some (map (to_hosted_authorization rt now) (list_allowances_for_owner who.0 who.1.ledger)))

-- A request that writes allowances, with its `Authorization` header.
pub data Request : Type 0 where
  allows : Option String → AllowanceBody → Request
  revokes : Option String → (address signature : Option String) → Request
  begins_revocation : Option String → (address : Option String) → Request
  deletes : Option String → (address : Option String) → Request

abbrev pub authorization_of : Request → Option String
authorization_of (allows authorization b) = authorization
authorization_of (revokes authorization address signature) = authorization
authorization_of (begins_revocation authorization address) = authorization
authorization_of (deletes authorization address) = authorization

module _ (rt : Runtime) (product : Product) (parse_date : String → Option ℕ) (rpc : Rpc) where
  unfoldable pub handle : ℕ → Request → Option Database → Option Database × Answer
  unfolding post_allowance post_revoked post_revocation_pending delete_metadata
  handle now (allows authorization b) = post_allowance rt product parse_date rpc now authorization b
  handle now (revokes authorization address signature) =
      post_revoked rt product parse_date rpc now authorization address signature
  handle now (begins_revocation authorization address) =
      post_revocation_pending rt product parse_date rpc now authorization address
  handle now (deletes authorization address) =
      delete_metadata rt product parse_date rpc now authorization address
