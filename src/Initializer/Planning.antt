-- ===== src/Initializer/Planning.antt =====
-- packages/create-meterkit/src/plan.ts: the template files of a surface, and the plan made of them.
use Prim.Native.String.{◌++◌ as ◌<>◌}
use meterkit.Prelude.{
  String, Bool, true, false, not, ◌||◌, ◌==◌, ◌≡◌, refl, ap, Option, none, some, List, [], ◌∷◌,
  ◌++◌, map, if◌then◌else◌, Result, ok, ◌>>=◌, ◌>>◌, reject_if, or_throw, reject_if-ok, or_throw-ok,
  All, Option-cases, inl, inr,
}
use meterkit.Platform.{Runtime, codes, is_solana_address, truthy, all_some}
use meterkit.Spend.{get_or}
use meterkit.Initializer.{
  Surface, express, next_route, hono, mcp, PackageManager, pnpm, npm, yarn, bun, Durability, memory,
  postgres, PlannedFile, Plan, Paths, is_plan, is_secret, upper,
}

pub data InitializerError : Type 0 where
  invalid_input : InitializerError

-- The template directory of a surface. The entries of a directory stand in the order in which
-- `templateFiles` sorts them.
mutual
  pub data Entry : Type 0 where
    link : String → Entry
    file : String → Entry
    directory : String → Entries → Entry

  pub data Entries : Type 0 where
    nil : Entries
    cons : Entry → Entries → Entries

abbrev pub both : Option (List String) → Option (List String) → Option (List String)
both none ys = none
both (some xs) none = none
both (some xs) (some ys) = some (xs ++ ys)

-- `templateFiles` below a prefix, with the paths relative to the template: none at a symbolic link.
unfoldable mutual
  pub entry_files : String → Entry → Option (List String)
  entry_files prefix (link name) = none
  entry_files prefix (file name) = some ((prefix <> name) ∷ [])
  entry_files prefix (directory name es) = template_files (prefix <> name <> "/") es

  pub template_files : String → Entries → Option (List String)
  template_files prefix nil = some []
  template_files prefix (cons e es) = both (entry_files prefix e) (template_files prefix es)

-- `InitializerOptions`, each value as its text.
pub record Options : Type 0 where
  pub surface : String
  pub package_manager : String
  pub target_directory : String
  pub network : Option String
  pub recipient : Option String
  pub durability : Option String

abbrev pub to_surface : String → Option Surface
to_surface s =
    if s == "express"
    then some express
    else if s == "next-route"
    then some next_route
    else if s == "hono"
    then some hono
    else if s == "mcp"
    then some mcp
    else none

abbrev pub to_package_manager : String → Option PackageManager
to_package_manager s =
    if s == "pnpm"
    then some pnpm
    else if s == "npm"
    then some npm
    else if s == "yarn"
    then some yarn
    else if s == "bun"
    then some bun
    else none

abbrev pub is_durability : String → Bool
is_durability s = s == "memory" || s == "postgres"

abbrev pub to_durability : Option String → Durability
to_durability none = memory
to_durability (some s) = if s == "postgres" then postgres else memory

-- What is read of the template directory of a surface.
pub record Templates (B : Type 0) : Type 0 where
  pub entries : Surface → Entries
  pub read : Surface → String → Option B
  pub digest : B → String
  pub decode : B → String

-- `sha256:` and the digest of a template.
abbrev pub fingerprint_of : {B : Type 0} → Templates B → B → String
fingerprint_of ts b = "sha256:" <> ts.digest b

module _ {B : Type 0} (ts : Templates B) (surface : Surface) where
  -- Each path with the fingerprint of what is read there.
  unfoldable pub planned : List String → Option (List PlannedFile)
  planned [] = some []
  planned (path ∷ rest) = elim (ts.read surface path) [
    | none ↦ none
    | some b ↦ elim (planned rest) [
      | none ↦ none
      | some fs ↦ some (record { path = path; fingerprint = fingerprint_of ts b } ∷ fs)
    ]
  ]

module _ {B : Type 0} (rt : Runtime) (paths : Paths) (ts : Templates B) where
  unfoldable pub to_plan :
      Surface → PackageManager → String → Durability → Option String → List PlannedFile → Plan
  to_plan surface package_manager target durability recipient files = record {
    surface = surface;
    target_directory = paths.resolve target;
    package_manager = package_manager;
    durability = durability;
    recipient = truthy recipient;
    files = files;
    environment_keys =
        "MERCHANT_WALLET" ∷ "SOLANA_RPC_URL" ∷ "DURABILITY_MODE" ∷ database_url durability;
    warnings = "DEVNET_ONLY" ∷ "DO_NOT_USE_PRIVATE_KEYS" ∷ non_durable durability;
  }
    where
      database_url : Durability → List String
      database_url memory = []
      database_url postgres = "DATABASE_URL" ∷ []

      non_durable : Durability → List String
      non_durable memory = "MEMORY_STORE_NON_DURABLE" ∷ []
      non_durable postgres = []

  -- `createInitializerPlan`, without the override that its tests use; every error is INVALID_INPUT.
  unfoldable pub create_initializer_plan : Options → Result InitializerError Plan
  create_initializer_plan o = do
    surface ← or_throw (to_surface o.surface) invalid_input
    package_manager ← or_throw (to_package_manager o.package_manager) invalid_input
    reject_if (not (all_some is_durability o.durability)) invalid_input
    reject_if (not (get_or o.network "solana-devnet" == "solana-devnet")) invalid_input
    reject_if (not (all_some (λ r. not (is_secret (map upper (codes r)))) (truthy o.recipient)))
        invalid_input
    reject_if (not (all_some is_solana_address (truthy o.recipient))) invalid_input
    sources ← or_throw (template_files "" (ts.entries surface)) invalid_input
    files ← or_throw (planned ts surface sources) invalid_input
    let p =
        to_plan surface package_manager o.target_directory (to_durability o.durability) o.recipient
          files
    reject_if (not (is_plan rt paths p)) invalid_input
    ok p

-- Each planned file is a template that is there, with its fingerprint.
abbrev pub Matches : {B : Type 0} → Templates B → Surface → List PlannedFile → Type 0
Matches {B} ts surface =
    All (λ f. (b : B) × (ts.read surface f.path ≡ some b) × (fingerprint_of ts b ≡ f.fingerprint))

planned-Matches :
    {B : Type 0} (ts : Templates B) (surface : Surface) (paths : List String)
    (files : List PlannedFile)
    → planned ts surface paths ≡ some files
    → Matches ts surface files × (map (λ f. f.path) files ≡ paths)
unfolding planned
planned-Matches ts surface [] files h = let same : [] ≡ files = cc in rw (← same) (tt, refl)
planned-Matches ts surface (path ∷ rest) files h = elim (Option-cases (ts.read surface path)) [
  | inl e ↦ cc (rw (e, planned) at h)
  | inr (b, e) ↦ elim (Option-cases (planned ts surface rest)) [
    | inl g ↦ cc (rw (e, g, planned) at h)
    | inr (fs, g) ↦
        let (matches, paths) = planned-Matches ts surface rest fs g in
        let same : some (record { path = path; fingerprint = fingerprint_of ts b } ∷ fs)
            ≡ some files =
          rw (e, g, planned) at h in
        let whole : record { path = path; fingerprint = fingerprint_of ts b } ∷ fs ≡ files = cc in
        rw (← whole) (((b, e, refl), matches), ap (λ z. path ∷ z) paths)
  ]
]

not-false : (b : Bool) → not b ≡ false → b ≡ true
not-false true h = refl
not-false false h = cc

-- A plan that was made is accepted by the schema, for the surface, the store and the recipient that were
-- asked for, and its files are the template files of the surface, none of them a symbolic link, each with
-- its fingerprint.
pub create-IsPlanned :
    {B : Type 0} (rt : Runtime) (paths : Paths) (ts : Templates B) (o : Options) (p : Plan)
    → create_initializer_plan rt paths ts o ≡ ok p
    → (is_plan rt paths p ≡ true)
      × (to_surface o.surface ≡ some p.surface)
      × (p.durability ≡ to_durability o.durability)
      × (p.recipient ≡ truthy o.recipient)
      × (template_files "" (ts.entries p.surface) ≡ some (map (λ f. f.path) p.files))
      × Matches ts p.surface p.files
unfolding create_initializer_plan to_plan
create-IsPlanned rt paths ts o p h =
    let (surface, s, h₁) = or_throw-ok (to_surface o.surface) invalid_input h in
    let (package_manager, _, h₂) =
      or_throw-ok (to_package_manager o.package_manager) invalid_input h₁ in
    let (_, h₃) = reject_if-ok (not (all_some is_durability o.durability)) invalid_input h₂ in
    let (_, h₄) =
      reject_if-ok (not (get_or o.network "solana-devnet" == "solana-devnet")) invalid_input h₃ in
    let (_, h₅) =
      reject_if-ok
        (not (all_some (λ r. not (is_secret (map upper (codes r)))) (truthy o.recipient)))
        invalid_input h₄ in
    let (_, h₆) =
      reject_if-ok (not (all_some is_solana_address (truthy o.recipient))) invalid_input h₅ in
    let (sources, t, h₇) = or_throw-ok (template_files "" (ts.entries surface)) invalid_input h₆ in
    let (files, f, h₈) = or_throw-ok (planned ts surface sources) invalid_input h₇ in
    made surface package_manager sources files s t f h₈
  where
    made :
        (surface : Surface) (m : PackageManager) (sources : List String) (files : List PlannedFile)
        → to_surface o.surface ≡ some surface
        → template_files "" (ts.entries surface) ≡ some sources
        → planned ts surface sources ≡ some files
        → (let q =
              to_plan rt paths ts surface m o.target_directory
                (to_durability o.durability)
                o.recipient
                files in
            reject_if (not (is_plan rt paths q)) invalid_input >> ok q)
          ≡ ok p
        → (is_plan rt paths p ≡ true)
          × (to_surface o.surface ≡ some p.surface)
          × (p.durability ≡ to_durability o.durability)
          × (p.recipient ≡ truthy o.recipient)
          × (template_files "" (ts.entries p.surface) ≡ some (map (λ f. f.path) p.files))
          × Matches ts p.surface p.files
    made surface m sources files s t f h =
        let q =
          to_plan rt paths ts surface m o.target_directory (to_durability o.durability) o.recipient
            files in
        let (accepted, g) = reject_if-ok (not (is_plan rt paths q)) invalid_input h in
        let same : q ≡ p = cc g in
        let (matches, listed) = planned-Matches ts surface sources files f in
        rw (← same) (not-false (is_plan rt paths q) accepted, s, refl, refl, rw listed t, matches)
