-- ===== src/Spend/Allowances.antt =====
-- The methods of `PostgresStore` in packages/database/src/index.ts that write the allowances.
use meterkit.Prelude.{
  ℕ, String, Bool, true, false, ◌&&◌, Option, none, some, List, [], ◌∷◌, ◌==◌, if◌then◌else◌, any,
  find, filter, take, modify_where, update_where, Result, ok, err, ◌>>=◌, or_throw, not,
}
use meterkit.Spend.Tables.{
  active, revocation_pending, revoked, finalized, Allowance, AllowanceRecord, Ledger, SpendError,
  constraint_violated, checked, is_active, get_or, is_none, Observation, observed_status,
  may_observe,
}

-- The row that `saveAllowance` proposes; `spent_atomic` and `reserved_atomic` default to 0.
unfoldable pub to_row : ℕ → AllowanceRecord → Allowance
to_row now a = record {
  address = a.address;
  owner_wallet = a.owner_wallet;
  delegate_wallet = a.delegate_wallet;
  mint = a.mint;
  max_atomic = a.max_atomic;
  per_request_atomic = get_or a.per_request_atomic a.max_atomic;
  spent_atomic = 0;
  reserved_atomic = 0;
  expires_at = a.expires_at;
  revoked_at = a.revoked_at;
  signature = a.signature;
  status = get_or a.status active;
  recipient_scope = a.recipient_scope;
  resource_scopes = get_or a.resource_scopes [];
  starts_at = get_or a.starts_at now;
  observed_commitment = get_or a.observed_commitment finalized;
  observed_at = get_or a.observed_at now;
  revocation_signature = a.revocation_signature;
}

-- The SET list of ON CONFLICT (address) DO UPDATE.
unfoldable pub merge_row : Allowance → Allowance → Allowance
merge_row excluded old = record old {
  delegate_wallet = excluded.delegate_wallet;
  mint = excluded.mint;
  max_atomic = excluded.max_atomic;
  per_request_atomic = excluded.per_request_atomic;
  expires_at = excluded.expires_at;
  revoked_at = excluded.revoked_at;
  signature = excluded.signature;
  recipient_scope = excluded.recipient_scope;
  resource_scopes = excluded.resource_scopes;
  observed_commitment = excluded.observed_commitment;
  observed_at = excluded.observed_at;
  revocation_signature = excluded.revocation_signature;
  status = excluded.status;
}

unfoldable pub with_allowances : Ledger → Option (List Allowance) → Result SpendError Ledger
with_allowances l none = err constraint_violated
with_allowances l (some rows) = ok (record l { allowances = rows })

-- INSERT … ON CONFLICT (address) DO UPDATE … WHERE the owner is the same.
unfoldable pub upsert_allowance : Allowance → Ledger → Result SpendError Ledger
unfolding with_allowances
upsert_allowance row l =
    if any (λ a. a.address == row.address) l.allowances
    then with_allowances l (
        update_where (λ a. a.address == row.address && a.owner_wallet == row.owner_wallet)
          (λ a. checked (merge_row row a)) l.allowances)
    else ok (record l { allowances = row ∷ l.allowances })

-- The proposed row is checked before the conflict is looked for.
unfoldable pub save_allowance : ℕ → AllowanceRecord → Ledger → Result SpendError Ledger
unfolding upsert_allowance
save_allowance now input l = do
  row ← or_throw (checked (to_row now input)) constraint_violated
  upsert_allowance row l

unfoldable pub list_allowances_for_owner : String → Ledger → List Allowance
list_allowances_for_owner owner l = take 100 (filter (λ a. a.owner_wallet == owner) l.allowances)

unfoldable pub get_allowance_for_owner : String → String → Ledger → Option Allowance
get_allowance_for_owner owner address l =
    find (λ a. a.owner_wallet == owner && a.address == address) l.allowances

-- ON DELETE CASCADE takes the reservations along.
unfoldable pub delete_allowance_metadata : String → String → Ledger → Ledger × Bool
delete_allowance_metadata owner address l =
    let hit : Allowance → Bool = λ a. a.owner_wallet == owner && a.address == address in
    if any hit l.allowances
    then (
      record {
        allowances = filter (λ a. not (hit a)) l.allowances;
        reservations = filter (λ r. not (address == r.allowance_address)) l.reservations;
      },
      true,
    )
    else (l, false)

unfoldable pub update_allowances :
    (Allowance → Bool) → (Allowance → Allowance) → Ledger → Ledger × Bool
update_allowances p f l =
    (record l { allowances = modify_where p f l.allowances }, any p l.allowances)

unfoldable pub revoke_allowance : ℕ → String → String → Option String → Ledger → Ledger × Bool
unfolding update_allowances
revoke_allowance now owner address signature =
    update_allowances
      (λ a. a.address == address && (a.owner_wallet == owner && is_none a.revoked_at))
      (λ a. record a {
        revoked_at = some now;
        status = revoked;
        revocation_signature = elim signature [ none ↦ a.revocation_signature | some s ↦ some s ];
        observed_commitment = finalized;
        observed_at = now;
      })

unfoldable pub begin_allowance_revocation : String → String → Ledger → Ledger × Bool
unfolding update_allowances
begin_allowance_revocation owner address =
    update_allowances (λ a. a.address == address && (a.owner_wallet == owner && is_active a.status))
      (λ a. record a { status = revocation_pending })

unfoldable pub set_allowance_observation_status : String → Observation → Ledger → Ledger × Bool
unfolding update_allowances
set_allowance_observation_status address status =
    update_allowances (λ a. a.address == address && may_observe a.status status)
      (λ a. record a { status = observed_status status })
