-- ===== src/Authorization/Fixed.antt =====
-- `buildFixedAuthorizationView` of packages/subscriptions/src/authorization.ts.
use meterkit.Prelude.{
  ℕ, ◌≤◌, ◌<◌, String, ◌≡◌, ◌↔◌, and_then-some, All-impl, true, Option, none, some, List, [], ◌∷◌,
  ◌==◌, ltb, leb, nat_eq, eq_iff, any, All, if◌then◌else◌, and_then, arith, subst, sym,
}
use meterkit.Platform.{
  truthy, Runtime, solana_devnet, subscriptions_program, normalize_resource,
  normalize_resource_scope, normalize_resource-scope,
}
use meterkit.Spend.{Status, Commitment, pending, active, exhausted, expired}
use meterkit.Authorization.{View, fixed, parse_view, parse_view-IsView}

-- The argument of `buildFixedAuthorizationView`.
pub record FixedInput : Type 0 where
  pub authorization_address : String
  pub owner : String
  pub delegate : String
  pub asset_mint : String
  pub recipient_scope : Option String
  pub resource_scopes : List String
  pub per_request_limit_atomic : ℕ
  pub aggregate_limit_atomic : ℕ
  pub spent_atomic : ℕ
  pub starts_at : ℕ
  pub expires_at : ℕ
  pub status : Option Status
  pub creation_transaction : Option String
  pub revocation_transaction : Option String
  pub observed_commitment : Commitment
  pub observed_at : ℕ

-- `statusAt`.
unfoldable pub status_at : FixedInput → ℕ → Status
status_at i now =
    if leb i.expires_at now
    then expired
    else if ltb now i.starts_at
    then pending
    else if nat_eq i.spent_atomic i.aggregate_limit_atomic
    then exhausted
    else active

-- `resourceScopes.map(normalizeResourceScope)`: none where one of the calls throws.
unfoldable pub normalize_scopes : Runtime → List String → Option (List String)
normalize_scopes rt [] = some []
normalize_scopes rt (raw ∷ raws) =
    and_then (normalize_resource_scope rt raw)
      (λ s. and_then (normalize_scopes rt raws) (λ rest. some (s ∷ rest)))

abbrev or_else : Option Status → Status → Status
or_else none s = s
or_else (some s) d = s

-- The object that is given to the schema.
unfoldable pub fixed_view : FixedInput → List String → View
unfolding status_at
fixed_view i scopes = record {
  authorization_address = i.authorization_address;
  program = subscriptions_program;
  network = solana_devnet;
  kind = fixed;
  owner = i.owner;
  delegate = i.delegate;
  asset_mint = i.asset_mint;
  recipient_scope = truthy i.recipient_scope;
  resource_scopes = scopes;
  per_request_limit_atomic = i.per_request_limit_atomic;
  aggregate_limit_atomic = i.aggregate_limit_atomic;
  spent_atomic = i.spent_atomic;
  starts_at = i.starts_at;
  expires_at = i.expires_at;
  status = or_else i.status (status_at i i.observed_at);
  creation_transaction = truthy i.creation_transaction;
  revocation_transaction = truthy i.revocation_transaction;
  observed_commitment = i.observed_commitment;
  observed_at = i.observed_at;
}

-- none: an error was thrown.
unfoldable pub build_fixed_authorization_view : Runtime → FixedInput → Option View
unfolding fixed_view
build_fixed_authorization_view rt i =
    and_then (normalize_scopes rt i.resource_scopes) (λ scopes. parse_view rt (fixed_view i scopes))

any-weaken :
    (raw s : String) (rt : Runtime) (scopes : List String)
    → any (λ x. x == normalize_resource rt raw) scopes ≡ true
    → any (λ x. x == normalize_resource rt raw) (s ∷ scopes) ≡ true
any-weaken raw s rt scopes h = ground (arith, h)

normalize_scopes-cover :
    (rt : Runtime) (raws scopes : List String)
    → normalize_scopes rt raws ≡ some scopes
    → All (λ raw. any (λ s. s == normalize_resource rt raw) scopes ≡ true) raws
unfolding normalize_scopes
normalize_scopes-cover rt [] scopes h = tt
normalize_scopes-cover rt (raw ∷ raws) scopes h =
    let (s, one, h₁) = and_then-some (normalize_resource_scope rt raw) h in
    let (rest, many, h₂) = and_then-some (normalize_scopes rt raws) h₁ in
    let same : scopes ≡ s ∷ rest = cc in
    subst (λ z. All (λ r. any (λ x. x == normalize_resource rt r) z ≡ true) (raw ∷ raws)) (sym same)
      (
        ground (arith, eq_iff s (normalize_resource rt raw), normalize_resource-scope rt raw one),
        All-impl raws (λ r c. any-weaken r s rt rest c) (normalize_scopes-cover rt raws rest many),
      )

-- Each resource that was given as a scope is in scope of the view, as the guards test it.
pub build_fixed-covers :
    (rt : Runtime) (i : FixedInput) (v : View)
    → build_fixed_authorization_view rt i ≡ some v
    → All
        (λ raw. any (λ s. s == normalize_resource rt raw) v.resource_scopes ≡ true)
        i.resource_scopes
unfolding build_fixed_authorization_view
build_fixed-covers rt i v h =
    let (scopes, cover, h₁) = and_then-some (normalize_scopes rt i.resource_scopes) h in
    let same = (parse_view-IsView rt (fixed_view i scopes) v h₁).0 in
    rw same (unfold fixed_view in normalize_scopes-cover rt i.resource_scopes scopes cover)

fixed_view-active :
    (i : FixedInput) (scopes : List String)
    → i.status ≡ none
    → (fixed_view i scopes).spent_atomic ≤ (fixed_view i scopes).aggregate_limit_atomic
    → ((fixed_view i scopes).status ≡ active) ↔ (
        (i.starts_at ≤ i.observed_at)
        × (i.observed_at < i.expires_at)
        × (i.spent_atomic < i.aggregate_limit_atomic))
unfolding fixed_view
fixed_view-active i scopes n spent = ground (arith, n)

-- Without a status of its own the view's status is decided by its times and amounts: 'active'
-- exactly within the window with something left to spend.
pub build_fixed-active :
    (rt : Runtime) (i : FixedInput) (v : View)
    → i.status ≡ none
    → build_fixed_authorization_view rt i ≡ some v
    → (v.status ≡ active) ↔ (
        (i.starts_at ≤ i.observed_at)
        × (i.observed_at < i.expires_at)
        × (i.spent_atomic < i.aggregate_limit_atomic))
unfolding build_fixed_authorization_view
build_fixed-active rt i v n h =
    let (scopes, _, h₁) = and_then-some (normalize_scopes rt i.resource_scopes) h in
    let (same, spent, _, _) = parse_view-IsView rt (fixed_view i scopes) v h₁ in
    rw same (fixed_view-active i scopes n spent)
