-- ===== src/Spend/Tables.antt =====
-- The rows of `agent_allowances` and `allowance_spend_reservations`, with the constraint of the first:
-- packages/database/src/index.ts and packages/database/migrations/005_authorization_reservations.sql.
use meterkit.Prelude.{
  ℕ, ◌+◌, String, Bool, true, false, ◌&&◌, Option, none, some, List, ltb, leb, if◌then◌else◌, ◌||◌,
  nat_eq, sum_by, [], ◌∷◌,
}
use meterkit.Platform.{codes, in_range}

pub data Status : Type 0 where
  pending active exhausted expired revocation_pending revoked unknown failed : Status

pub data Commitment : Type 0 where
  processed confirmed finalized unknown : Commitment

pub data ReservationStatus : Type 0 where
  reserved consumed released : ReservationStatus

-- A row of `agent_allowances`.
pub record Allowance : Type 0 where
  pub address : String
  pub owner_wallet : String
  pub delegate_wallet : String
  pub mint : String
  pub max_atomic : ℕ
  pub per_request_atomic : ℕ
  pub spent_atomic : ℕ
  pub reserved_atomic : ℕ
  pub expires_at : ℕ
  pub revoked_at : Option ℕ
  pub signature : Option String
  pub status : Status
  pub recipient_scope : Option String
  pub resource_scopes : List String
  pub starts_at : ℕ
  pub observed_commitment : Commitment
  pub observed_at : ℕ
  pub revocation_signature : Option String

-- A row of `allowance_spend_reservations`.
pub record Reservation : Type 0 where
  pub reservation_id : String
  pub allowance_address : String
  pub payment_key : String
  pub amount_atomic : ℕ
  pub status : ReservationStatus
  pub expires_at : ℕ

-- `AgentAllowanceRecord`, as `saveAllowance` takes it.
pub record AllowanceRecord : Type 0 where
  pub address : String
  pub owner_wallet : String
  pub delegate_wallet : String
  pub mint : String
  pub max_atomic : ℕ
  pub expires_at : ℕ
  pub revoked_at : Option ℕ
  pub signature : Option String
  pub per_request_atomic : Option ℕ
  pub status : Option Status
  pub recipient_scope : Option String
  pub resource_scopes : Option (List String)
  pub starts_at : Option ℕ
  pub observed_commitment : Option Commitment
  pub observed_at : Option ℕ
  pub revocation_signature : Option String

-- `AllowanceSpendReservationInput`.
pub record ReservationInput : Type 0 where
  pub reservation_id : String
  pub allowance_address : String
  pub payment_key : String
  pub amount_atomic : ℕ
  pub expires_at : ℕ

pub record Ledger : Type 0 where
  pub allowances : List Allowance
  pub reservations : List Reservation

pub data SpendError : Type 0 where
  reservation_invalid not_found reservation_replayed not_active : SpendError
  allowance_expired per_request_exceeded aggregate_exceeded : SpendError
  -- Error 23514 or 22003 of PostgreSQL: a row breaks a constraint of its table.
  constraint_violated : SpendError

-- Amounts are numeric(20, 0).
abbrev pub numeric_bound : ℕ
numeric_bound = 100_000_000_000_000_000_000

-- The octets of a character in `jsonb::text`: escapes, and UTF-8.
abbrev char_octets : ℕ → ℕ
char_octets c =
    if nat_eq c b'"' || nat_eq c 92 || in_range 8 10 c || in_range 12 13 c
    then 2
    else if ltb c 32
    then 6
    else if ltb c 128
    then 1
    else if ltb c 2_048
    then 2
    else if ltb c 65_536
    then 3
    else 4

abbrev text_octets : String → ℕ
text_octets s = sum_by char_octets (codes s) + 2

-- `octet_length(resource_scopes::text)`, of ["…", "…"].
unfoldable pub scopes_octets : List String → ℕ
scopes_octets [] = 2
scopes_octets (s ∷ []) = text_octets s + 2
scopes_octets (s ∷ t ∷ ts) = text_octets s + 2 + scopes_octets (t ∷ ts)

-- `agent_allowances_amounts_check`, with the bound of the column, and `agent_allowances_scopes_size_check`.
unfoldable pub row_check : Allowance → Bool
row_check a =
    ltb 0 a.max_atomic
    && ltb 0 a.per_request_atomic
    && leb a.per_request_atomic a.max_atomic
    && leb (a.spent_atomic + a.reserved_atomic) a.max_atomic
    && ltb a.max_atomic numeric_bound
    && leb (scopes_octets a.resource_scopes) 32_768

unfoldable pub checked : Allowance → Option Allowance
checked a = if row_check a then some a else none

abbrev pub is_active : Status → Bool
is_active active = true
is_active _ = false

abbrev pub is_reserved : ReservationStatus → Bool
is_reserved reserved = true
is_reserved _ = false

abbrev pub get_or {ℓ} : {A : Type ℓ} → Option A → A → A
get_or none d = d
get_or (some a) d = a

abbrev pub is_none {ℓ} : {A : Type ℓ} → Option A → Bool
is_none none = true
is_none (some a) = false

-- "active" | "unknown" | "failed".
pub data Observation : Type 0 where
  active unknown failed : Observation

abbrev pub observed_status : Observation → Status
observed_status active = active
observed_status unknown = unknown
observed_status failed = failed

abbrev pub may_observe : Status → Observation → Bool
may_observe active unknown = true
may_observe active failed = true
may_observe unknown active = true
may_observe unknown failed = true
may_observe _ _ = false

-- "consumed" | "released".
pub data Outcome : Type 0 where
  consumed released : Outcome

abbrev pub outcome_status : Outcome → ReservationStatus
outcome_status consumed = consumed
outcome_status released = released
