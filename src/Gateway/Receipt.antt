-- ===== src/Gateway/Receipt.antt =====
-- `verifyAllowanceReceipt` and `verifyRevocationReceipt` of apps/gateway/src/server.ts. What
-- `getTransaction` answers at commitment finalized is a parameter.
use meterkit.Prelude.{
  ◌==◌, String, Bool, false, not, ◌&&◌, Option, none, some, List, [], ◌∷◌, all, mem,
}
use meterkit.Platform.{subscriptions_program}

-- A transaction that was found: whether `meta.err` is set, and the account keys that are texts.
pub record Transaction : Type 0 where
  pub has_error : Bool
  pub account_keys : List String

-- none where the request throws, has no good status, or finds no transaction.
abbrev pub Rpc : Type 0
Rpc = String → Option Transaction

abbrev pub mentions : List String → Option Transaction → Bool
mentions required none = false
mentions required (some t) =
    not t.has_error && all (λ k. not (k == "") && mem k t.account_keys) required

unfoldable pub verify_allowance_receipt :
    Rpc → (signature owner delegation_account delegate mint : String) → Bool
verify_allowance_receipt rpc signature owner delegation_account delegate mint =
    mentions (owner ∷ delegation_account ∷ delegate ∷ mint ∷ subscriptions_program ∷ [])
      (rpc signature)

unfoldable pub verify_revocation_receipt :
    Rpc → (signature owner delegation_account : String) → Bool
verify_revocation_receipt rpc signature owner delegation_account =
    mentions (owner ∷ delegation_account ∷ subscriptions_program ∷ []) (rpc signature)
