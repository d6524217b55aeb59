-- ===== src/Authorization/Hosted.antt =====
-- The hosted view of an allowance: apps/gateway/src/authorization.ts, and the builder of
-- packages/subscriptions/src/authorization.ts. A row stands for the record that `mapAllowance`
-- makes of it, where no field is missing.
use meterkit.Prelude.{
  ℕ, ◌+◌, ◌-◌, ◌≡◌, refl, true, Option, none, some, List, leb, if◌then◌else◌, and_then, arith,
  Option-cases, inl, inr,
}
use meterkit.Platform.{truthy, Runtime, is_falsy, solana_devnet, subscriptions_program}
use meterkit.Spend.{Allowance, Reservation, Status, expired, revoked, is_reserved}
use meterkit.Spend.Invariant.{IsFunded, total, is_consumed, row_check-IsBounded}
use meterkit.Authorization.{View, fixed, parse_view, parse_view-unrevoked}

-- The status that the gateway reports at `now`.
unfoldable pub hosted_status : ℕ → Allowance → Status
hosted_status now a = elim a.revoked_at [
  | some t ↦ revoked
  | none ↦ if leb a.expires_at now then expired else a.status
]

-- The object that is given to the schema.
unfoldable pub hosted_view : ℕ → Allowance → View
unfolding hosted_status
hosted_view now a = record {
  authorization_address = a.address;
  program = subscriptions_program;
  network = solana_devnet;
  kind = fixed;
  owner = a.owner_wallet;
  delegate = a.delegate_wallet;
  asset_mint = a.mint;
  recipient_scope = truthy a.recipient_scope;
  resource_scopes = a.resource_scopes;
  per_request_limit_atomic = a.per_request_atomic;
  aggregate_limit_atomic = a.max_atomic;
  spent_atomic = a.spent_atomic;
  starts_at = a.starts_at;
  expires_at = a.expires_at;
  status = hosted_status now a;
  creation_transaction = truthy a.signature;
  revocation_transaction = truthy a.revocation_signature;
  observed_commitment = a.observed_commitment;
  observed_at = a.observed_at;
}

pub record HostedAuthorization : Type 0 where
  pub view : View
  pub reserved_atomic : ℕ
  pub remaining_capacity_atomic : ℕ

-- `toHostedAuthorization`: none where the schema throws. The row constraint keeps the remaining
-- capacity from being negative.
unfoldable pub to_hosted_authorization : Runtime → ℕ → Allowance → Option HostedAuthorization
unfolding hosted_view
to_hosted_authorization rt now a = and_then (parse_view rt (hosted_view now a)) (λ v. some (record {
  view = v;
  reserved_atomic = a.reserved_atomic;
  remaining_capacity_atomic = a.max_atomic - a.spent_atomic - a.reserved_atomic;
}))

-- The reported remaining capacity is what no consumed and no open reservation takes.
pub hosted_capacity :
    (rt : Runtime) (now : ℕ) (rs : List Reservation) (a : Allowance) (h : HostedAuthorization)
    → IsFunded rs a
    → to_hosted_authorization rt now a ≡ some h
    → h.remaining_capacity_atomic + total is_consumed a.address rs + total is_reserved a.address rs
      ≡ a.max_atomic
unfolding to_hosted_authorization
hosted_capacity rt now rs a h f e =
    let b = row_check-IsBounded a f.bounded in
    elim (Option-cases (parse_view rt (hosted_view now a))) [
      | inl n ↦ cc (rw n at e)
      | inr (v, n) ↦ ground (arith, f.held, f.spent, b.within, rw n at e)
    ]

-- A row that is revoked without a revocation signature has no hosted view: the schema throws.
pub hosted_revoked_without_evidence :
    (rt : Runtime) (now t : ℕ) (a : Allowance)
    → a.revoked_at ≡ some t
    → is_falsy a.revocation_signature ≡ true
    → to_hosted_authorization rt now a ≡ none
unfolding to_hosted_authorization
hosted_revoked_without_evidence rt now t a r f = rw (
    parse_view-unrevoked rt (hosted_view now a) (unfold hosted_view in rw r refl)
      (unfold hosted_view in ground (arith, f)))
