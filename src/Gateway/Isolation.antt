-- ===== src/Gateway/Isolation.antt =====
-- The requests on allowances of apps/gateway/src/server.ts leave the rows of other wallets alone, and the
-- ledger consistent.
use meterkit.Prelude.{
  ◌==◌, ◌⊎◌, ℕ, String, ◌≡◌, ◌≢◌, refl, ap, Bool, true, false, Option, none, some, Result-cases,
  Bool-cases, inl, inr, ≢→==-false,
}
use meterkit.Platform.{Runtime, truthy}
use meterkit.Products.{Product}
use meterkit.Spend.{
  Ledger, save_allowance, delete_allowance_metadata, revoke_allowance, begin_allowance_revocation,
}
use meterkit.Spend.Invariant.{IsLedger}
use meterkit.Spend.Upkeep.{
  save_allowance-IsLedger, revoke_allowance-IsLedger, begin_allowance_revocation-IsLedger,
}
use meterkit.Spend.Deleting.{delete_allowance_metadata-IsLedger}
use meterkit.Gateway.Session.{Database, session_owner, signed_in}
use meterkit.Gateway.Receipt.{Rpc, verify_allowance_receipt, verify_revocation_receipt}
use meterkit.Gateway.Allowances.{
  Answer, AllowanceRequest, allowance_record, check_allowance, record_allowance, revoke_received,
  pending_signed_in, delete_signed_in, changed, address_of, transaction_of, Request, allows,
  revokes, begins_revocation, deletes, authorization_of, handle, post_allowance, post_revoked,
  post_revocation_pending, delete_metadata,
}
use meterkit.Gateway.Rows.{
  rows_of, save_allowance-others, revoke_allowance-others, begin_revocation-others,
  delete_metadata-others,
}

-- What a request of `who` may do to the database.
pub record IsIsolated (who : Option String) (db : Database) (out : Option Database × Answer)
    : Type 0 where
  pub database : Database
  pub result : out.0 ≡ some database
  pub sessions : database.sessions ≡ db.sessions
  pub catalogue : database.catalogue ≡ db.catalogue
  pub others : (o : String) → who ≢ some o → rows_of o database.ledger ≡ rows_of o db.ledger
  pub valid : IsLedger db.ledger → IsLedger database.ledger

untouched : (who : Option String) (db : Database) (a : Answer) → IsIsolated who db (some db, a)
untouched who db a = record {
  database = db;
  result = refl;
  sessions = refl;
  catalogue = refl;
  others = λ o n. refl;
  valid = λ v. v;
}

changed-IsIsolated :
    (w : String) (db : Database) (p : Ledger × Bool) (a b : Answer)
    → ((o : String) → (w == o) ≡ false → rows_of o p.0 ≡ rows_of o db.ledger)
    → (IsLedger db.ledger → IsLedger p.0)
    → IsIsolated (some w) db (changed db p a b)
changed-IsIsolated w db (l, true) a b others valid = record {
  database = record db { ledger = l };
  result = refl;
  sessions = refl;
  catalogue = refl;
  others = λ o n. others o (≢→==-false w o (λ e. n (ap some e)));
  valid = valid;
}
changed-IsIsolated w db (l, false) a b others valid = record {
  database = record db { ledger = l };
  result = refl;
  sessions = refl;
  catalogue = refl;
  others = λ o n. others o (≢→==-false w o (λ e. n (ap some e)));
  valid = valid;
}

module _ (rt : Runtime) (product : Product) (parse_date : String → Option ℕ) (rpc : Rpc) where
  record_allowance-IsIsolated :
      (now : ℕ) (w : String) (db : Database) (q : Option AllowanceRequest)
      → IsIsolated (some w) db (record_allowance rt product parse_date rpc now (w, db) q)
  record_allowance-IsIsolated now w db none = untouched (some w) db _
  record_allowance-IsIsolated now w db (some q) =
      elim (Bool-cases
        (verify_allowance_receipt rpc q.signature w q.address q.delegate_wallet q.mint)) [
          | inr e ↦ rw e (untouched (some w) db _)
          | inl e ↦
              elim (Result-cases (
                save_allowance now (allowance_record rt product parse_date rpc now w q)
                  db.ledger)) [
                    | inr (x, f) ↦ rw (e, f) (untouched (some w) db _)
                    | inl (l, f) ↦
                        rw (e, f)
                          (record {
                            database = record db { ledger = l };
                            result = refl;
                            sessions = refl;
                            catalogue = refl;
                            others = λ o n.
                                save_allowance-others w o
                                  (≢→==-false w o (λ same. n (ap some same))) now
                                  (allowance_record rt product parse_date rpc now w q) db.ledger l
                                  (unfold allowance_record in refl) f;
                            valid = λ v.
                                save_allowance-IsLedger now
                                  (allowance_record rt product parse_date rpc now w q) db.ledger l v
                                  f;
                          })
                  ]
        ]

  revoke_received-IsIsolated :
      (now : ℕ) (w : String) (db : Database) (address signature : Option String)
      → IsIsolated
          (some w)
          db
          (revoke_received rt product parse_date rpc now (w, db) address signature)
  revoke_received-IsIsolated now w db none signature = untouched (some w) db _
  revoke_received-IsIsolated now w db (some address) none = untouched (some w) db _
  revoke_received-IsIsolated now w db (some address) (some signature) =
      elim (Bool-cases (verify_revocation_receipt rpc signature w address)) [
        | inr e ↦ rw e (untouched (some w) db _)
        | inl e ↦ rw e (
            changed-IsIsolated w db (revoke_allowance now w address (some signature) db.ledger) _ _
              (λ o n. revoke_allowance-others w o n now address (some signature) db.ledger)
              (revoke_allowance-IsLedger now w address (some signature) db.ledger))
      ]

  pending-IsIsolated :
      (w : String) (db : Database) (store : Option Database) (address : Option String)
      → IsIsolated
          (some w)
          db
          (pending_signed_in rt product parse_date rpc address store (some (w, db)))
  pending-IsIsolated w db store none = untouched (some w) db _
  pending-IsIsolated w db store (some address) =
      changed-IsIsolated w db (begin_allowance_revocation w address db.ledger) _ _
        (λ o n. begin_revocation-others w o n address db.ledger)
        (begin_allowance_revocation-IsLedger w address db.ledger)

  delete-IsIsolated :
      (w : String) (db : Database) (store : Option Database) (address : Option String)
      → IsIsolated
          (some w)
          db
          (delete_signed_in rt product parse_date rpc address store (some (w, db)))
  delete-IsIsolated w db store none = untouched (some w) db _
  delete-IsIsolated w db store (some address) =
      changed-IsIsolated w db (delete_allowance_metadata w address db.ledger) _ _
        (λ o n. delete_metadata-others w o n address db.ledger)
        (delete_allowance_metadata-IsLedger w address db.ledger)

  pub signed_in-cases :
      (now : ℕ) (authorization : Option String) (db : Database)
      → (signed_in rt now authorization (some db) ≡ none)
        ⊎ ((w : String) × (session_owner rt now authorization (some db) ≡ some w)
            × (signed_in rt now authorization (some db) ≡ some (w, db)))
  signed_in-cases now authorization db =
      by_owner (session_owner rt now authorization (some db)) refl
    where
      by_owner :
          (o : Option String)
          → session_owner rt now authorization (some db) ≡ o
          → (signed_in rt now authorization (some db) ≡ none)
            ⊎ ((w : String) × (session_owner rt now authorization (some db) ≡ some w)
                × (signed_in rt now authorization (some db) ≡ some (w, db)))
      by_owner none e = inl (rw e refl)
      by_owner (some w) e = elim (Bool-cases (w == "")) [
        | inl t ↦ inl (rw (e, t) refl)
        | inr t ↦ inr (w, e, rw (e, t) refl)
      ]

  -- A request leaves the sessions, the products and the rows of every wallet but that of its own session as
  -- they are, and the ledger consistent if it was; without a session it changes no row at all.
  pub handle-IsIsolated :
      (now : ℕ) (q : Request) (db : Database)
      → IsIsolated
          (session_owner rt now (authorization_of q) (some db))
          db
          (handle rt product parse_date rpc now q (some db))
  unfolding handle post_allowance post_revoked post_revocation_pending delete_metadata
  handle-IsIsolated now (allows authorization b) db = elim (signed_in-cases now authorization db) [
    | inl e ↦ rw e (untouched _ db _)
    | inr (w, o, e) ↦
        rw (e, o)
          (record_allowance-IsIsolated now w db (check_allowance rt product parse_date rpc now b))
  ]
  handle-IsIsolated now (revokes authorization address signature) db =
      elim (signed_in-cases now authorization db) [
        | inl e ↦ rw e (untouched _ db _)
        | inr (w, o, e) ↦
            rw (e, o)
              (revoke_received-IsIsolated now w db (address_of address) (transaction_of signature))
      ]
  handle-IsIsolated now (begins_revocation authorization address) db =
      elim (signed_in-cases now authorization db) [
        | inl e ↦ rw e (untouched _ db _)
        | inr (w, o, e) ↦ rw (e, o) (pending-IsIsolated w db (some db) (truthy address))
      ]
  handle-IsIsolated now (deletes authorization address) db =
      elim (signed_in-cases now authorization db) [
        | inl e ↦ rw e (untouched _ db _)
        | inr (w, o, e) ↦ rw (e, o) (delete-IsIsolated w db (some db) (truthy address))
      ]
