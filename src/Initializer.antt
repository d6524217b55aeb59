-- ===== src/Initializer.antt =====
-- The initializer of a project: the plan of packages/core/src/initializer.ts, and
-- packages/create-meterkit/src/plan.ts, which makes one. A template is bytes of any type; their digest,
-- their decoding and the functions on paths of node:path are parameters. Below: what is written of a plan
-- (Writing), and that it is written whole or not at all (Keeping).
pub mod Writing
pub mod Keeping
pub mod Planning
mod Tests
use text.Mathlib.Text.{starts_with}
use Prim.Native.Char.{code}
use meterkit.Prelude.{
  ℕ, ◌+◌, ◌-◌, String, Bool, true, false, not, ◌&&◌, ◌||◌, ◌==◌, leb, nat_eq, length, all, any, map,
  Option, none, some, List, [], ◌∷◌, ◌++◌, if◌then◌else◌, Result, ok, err, ◌>>=◌, ◌>>◌, reject_if,
  or_throw, mem,
}
use meterkit.Platform.{Runtime, codes, in_range, is_solana_address, is_digest, all_some, truthy}

pub data Surface : Type 0 where
  express next_route hono mcp : Surface

pub data PackageManager : Type 0 where
  pnpm npm yarn bun : PackageManager

pub data Durability : Type 0 where
  memory postgres : Durability

pub record PlannedFile : Type 0 where
  pub path : String
  pub fingerprint : String

-- `InitializerPlan`, without its constants: the versions, the network and the dependencies.
pub record Plan : Type 0 where
  pub surface : Surface
  pub target_directory : String
  pub package_manager : PackageManager
  pub durability : Durability
  pub recipient : Option String
  pub files : List PlannedFile
  pub environment_keys : List String
  pub warnings : List String

-- What node:path does with a path.
pub record Paths : Type 0 where
  pub is_absolute : String → Bool
  pub normalize : String → String
  pub resolve : String → String

abbrev starts : List ℕ → List ℕ → Bool
starts [] cs = true
starts (p ∷ ps) [] = false
starts (p ∷ ps) (c ∷ cs) = nat_eq p c && starts ps cs

abbrev includes : List ℕ → List ℕ → Bool
includes ps [] = false
includes ps (c ∷ cs) = starts ps (c ∷ cs) || includes ps cs

-- /(PRIVATE|SECRET|SEED|TOKEN|SIGNATURE|PASSWORD)/
unfoldable pub is_secret : List ℕ → Bool
is_secret cs =
    any (λ s. includes (codes s) cs)
      ("PRIVATE" ∷ "SECRET" ∷ "SEED" ∷ "TOKEN" ∷ "SIGNATURE" ∷ "PASSWORD" ∷ [])

abbrev pub upper : ℕ → ℕ
upper c = if in_range b'a' b'z' c then c - 32 else c

-- /^[A-Z][A-Z0-9_]{0,63}$/
unfoldable pub is_key : List ℕ → Bool
is_key [] = false
is_key (c ∷ cs) =
    in_range b'A' b'Z' c
    && leb (length cs) 63
    && all (λ d. in_range b'A' b'Z' d || in_range b'0' b'9' d || nat_eq d b'_') cs

-- /^[A-Za-z]:[\\/]/
unfoldable pub has_drive : List ℕ → Bool
has_drive (c ∷ d ∷ e ∷ cs) =
    (in_range b'A' b'Z' c || in_range b'a' b'z' c)
    && nat_eq d b':'
    && (nat_eq e b'/' || nat_eq e 92)
has_drive _ = false

-- The text up to the first of two characters, in lower case.
abbrev before : ℕ → ℕ → List ℕ → List ℕ
before a b [] = []
before a b (c ∷ cs) =
    let rest = before a b cs in
    if nat_eq c a || nat_eq c b then [] else (if in_range b'A' b'Z' c then c + 32 else c) ∷ rest

abbrev same_codes : List ℕ → List ℕ → Bool
same_codes [] [] = true
same_codes (c ∷ cs) (d ∷ ds) = nat_eq c d && same_codes cs ds
same_codes _ _ = false

-- /^(?:con|prn|aux|nul|com[1-9]|lpt[1-9])(?:\.|$)/i on the first segment.
unfoldable pub is_windows_device : List ℕ → Bool
is_windows_device cs = is_device (before b'/' b'.' cs)
  where
    is_device : List ℕ → Bool
    is_device (a ∷ b ∷ c ∷ d ∷ []) =
        in_range b'1' b'9' d
        && (same_codes (a ∷ b ∷ c ∷ []) (codes "com") || same_codes (a ∷ b ∷ c ∷ []) (codes "lpt"))
    is_device name = any (λ t. same_codes name (codes t)) ("con" ∷ "prn" ∷ "aux" ∷ "nul" ∷ [])

-- `s.replaceAll("\\", "/")`.
unfoldable pub with_slashes : String → String
with_slashes String.[] = String.[]
with_slashes (String.◌∷◌ c s) =
    let rest = with_slashes s in
    if nat_eq (code c) 92 then String.◌∷◌ "/" rest else String.◌∷◌ c rest

abbrev pub distinct : List String → Bool
distinct [] = true
distinct (x ∷ xs) = not (mem x xs) && distinct xs

module _ (rt : Runtime) (paths : Paths) where
  -- What `relativeTemplatePathSchema` accepts.
  unfoldable pub is_template_path : String → Bool
  unfolding has_drive is_windows_device with_slashes
  is_template_path value =
      let normalized = paths.normalize (with_slashes value) in
      leb 1 (rt.units value)
      && leb (rt.units value) 512
      && not (paths.is_absolute value)
      && not (has_drive (codes value))
      && not (is_windows_device (codes normalized))
      && not (normalized == "..")
      && not (starts_with normalized "../")
      && not (starts_with normalized "/")
      && normalized == value
      && not (any (λ c. leb c 31 || nat_eq c 127) (codes value))

  -- What `initializerPlanSchema` accepts.
  unfoldable pub is_plan : Plan → Bool
  unfolding is_template_path is_key is_secret
  is_plan p =
      leb 1 (rt.units p.target_directory)
      && leb (rt.units p.target_directory) 4_096
      && all_some is_solana_address p.recipient
      && leb 1 (length p.files)
      && leb (length p.files) 256
      && all (λ f. is_template_path f.path && is_digest 64 f.fingerprint) p.files
      && leb (length p.environment_keys) 32
      && all (λ k. is_key (codes k) && not (is_secret (codes k))) p.environment_keys
      && leb (length p.warnings) 32
      && all (λ k. is_key (codes k)) p.warnings
      && distinct (map (λ f. f.path) p.files)
