-- ===== src/Initializer/Writing.antt =====
-- packages/create-meterkit/src/write.ts. Of the file system it takes the names that the writer uses, which
-- all differ: the target, the lock beside it and the staging directory with a fresh name. The calls of
-- `Faults` may fail; what others do to the target while the files are written is a function on it.
use text.Mathlib.Text.{starts_with}
use Prim.Native.String.{◌++◌ as ◌<>◌, len}
use meterkit.Prelude.{
  ℕ, zero, suc, ◌-◌, String, Bool, true, false, not, ◌||◌, ◌==◌, Option, none, some, List, [], ◌∷◌,
  ◌++◌, any, if◌then◌else◌, Result, ok, err, lookup, and_then,
}
use meterkit.Platform.{Runtime}
use meterkit.Spend.{get_or}
use meterkit.Initializer.{
  Surface, next_route, PackageManager, pnpm, npm, yarn, bun, Durability, memory, postgres,
  PlannedFile, Plan, Paths, is_plan,
}
use meterkit.Initializer.Planning.{Templates, fingerprint_of}

-- `s.replaceAll(pattern, by)`, for an ASCII pattern that is not empty: the characters of a match that
-- was replaced are skipped.
unfoldable pub replace_all : String → String → ℕ → String → String
replace_all pattern by skip String.[] = String.[]
replace_all pattern by (suc skip) (String.◌∷◌ c s) = replace_all pattern by skip s
replace_all pattern by zero (String.◌∷◌ c s) = elim (starts_with (String.◌∷◌ c s) pattern) [
  | true ↦ by <> replace_all pattern by (len pattern - 1) s
  | false ↦ String.◌∷◌ c (replace_all pattern by zero s)
]

abbrev skip_text : ℕ → String → String
skip_text n String.[] = String.[]
skip_text zero (String.◌∷◌ c s) = String.◌∷◌ c s
skip_text (suc n) (String.◌∷◌ c s) = skip_text n s

-- `s.replace(pattern, by)`: the first match only.
unfoldable pub replace_first : String → String → String → String
replace_first pattern by String.[] = String.[]
replace_first pattern by (String.◌∷◌ c s) = elim (starts_with (String.◌∷◌ c s) pattern) [
  | true ↦ by <> skip_text (len pattern) (String.◌∷◌ c s)
  | false ↦ String.◌∷◌ c (replace_first pattern by s)
]

-- `packageManagerCommands`.
abbrev pub runner : PackageManager → String
runner npm = "npm run "
runner pnpm = "pnpm "
runner yarn = "yarn "
runner bun = "bun run "

abbrev pub install_command : PackageManager → String
install_command npm = "npm install"
install_command pnpm = "pnpm install"
install_command yarn = "yarn install"
install_command bun = "bun install"

abbrev pub durability_mode : Durability → String
durability_mode memory = "DURABILITY_MODE=memory"
durability_mode postgres = "DURABILITY_MODE=postgres"

abbrev pub placeholder : String
placeholder = "replace_with_a_disposable_devnet_address"

-- `renderTemplate`, after decoding.
unfoldable pub render_template : Plan → String → String
unfolding replace_all
render_template p content =
    let run = runner p.package_manager in
    replace_all "DURABILITY_MODE=memory" (durability_mode p.durability) 0 (
      replace_all "{{RECIPIENT}}" (get_or p.recipient placeholder) 0 (
        replace_all "{{PAY_COMMAND}}" (run <> "pay:test") 0 (
          replace_all "{{DOCTOR_COMMAND}}" (run <> "doctor") 0 (
            replace_all "{{VERIFY_COMMAND}}" (run <> "verify") 0 (
              replace_all "{{CHECK_COMMAND}}" (run <> "check:unpaid") 0 (
                replace_all "{{DEV_COMMAND}}" (run <> "dev") 0 (
                  replace_all "{{INSTALL_COMMAND}}" (install_command p.package_manager) 0
                    content)))))))

abbrev pub Files : Type 0
Files = List (String × String)

-- The target: a directory with its files, or what is no directory.
pub data Target : Type 0 where
  absent other : Target
  directory : Files → Target

pub record Disk : Type 0 where
  pub target : Target
  pub lock : Bool
  pub staging : Option Files

-- Which calls fail.
pub record Faults : Type 0 where
  pub mkdir_parent : Bool
  pub open_lock : Bool
  pub lstat_target : Bool
  pub mkdir_staging : Bool
  pub write : String → Bool
  pub rmdir_target : Bool
  pub rename_staging : Bool
  pub rm_staging : Bool
  pub rm_lock : Bool

pub data WriteError : Type 0 where
  invalid_plan mkdir_failed unsafe_filesystem cleanup_failed : WriteError

-- Where the block under `try` ended: after the rename, before the staging directory had its name, or
-- between.
pub data Stop : Type 0 where
  finished unstaged staged : Stop

-- A file cannot stand where another one stands, nor below a file.
abbrev pub clash : String → String → Bool
clash a b = a == b || starts_with a (b <> "/") || starts_with b (a <> "/")

-- `assertSafeTarget`.
abbrev pub is_safe_target : Target → Bool
is_safe_target absent = true
is_safe_target (directory []) = true
is_safe_target _ = false

abbrev pub environment_name : Surface → String
environment_name next_route = ".env.local"
environment_name _ = ".env"

module _ {B : Type 0} (ts : Templates B) (p : Plan) (faults : Faults) where
  -- `writeFile` with the flag "wx" in the staging directory.
  unfoldable pub put : String → String → Files → Option Files
  put path text files =
      if faults.write path || any (λ (f : String × String). clash path f.0) files
      then none
      else some (files ++ (path, text) ∷ [])

  unfoldable pub stage_file : PlannedFile → Files → Option Files
  unfolding put render_template
  stage_file f files = and_then (ts.read p.surface f.path) (λ b.
      if fingerprint_of ts b == f.fingerprint
      then put f.path (render_template p (ts.decode b)) files
      else none)

  -- The loop over the files of the plan: what is staged at its end, and whether it went through.
  unfoldable pub stage : List PlannedFile → Files → Files × Bool
  unfolding stage_file
  stage [] files = (files, true)
  stage (f ∷ fs) files = elim (stage_file f files) [
    | none ↦ (files, false)
    | some next ↦ stage fs next
  ]

  -- The environment of a plan with a recipient.
  unfoldable pub stage_environment : Files → Option Files
  unfolding put replace_first
  stage_environment files = with_recipient p.recipient
    where
      with_recipient : Option String → Option Files
      with_recipient none = some files
      with_recipient (some recipient) = and_then (lookup ".env.example" files) (λ text.
          put (environment_name p.surface) (replace_first placeholder recipient text) files)

-- The end of the block: the target gives way, and the staging directory takes its name.
unfoldable pub remove_target : Faults → Target → Option Target
remove_target faults absent = some absent
remove_target faults (directory []) = if faults.rmdir_target then none else some absent
remove_target faults (directory (f ∷ fs)) = none
remove_target faults other = none

module _ {B : Type 0} (ts : Templates B) (p : Plan) (faults : Faults)
    (meanwhile : Target → Target) where
  abbrev pub rename : Files → Disk → Option Target → Disk × Stop
  rename files d none = (d, staged)
  rename files d (some t) =
      if faults.rename_staging
      then (record d { target = t }, staged)
      else (record d { target = directory files; staging = none }, finished)

  abbrev pub complete : Option Files → Disk → Disk × Stop
  complete none d = (d, staged)
  complete (some files) d =
      let now : Disk = record d { target = meanwhile d.target; staging = some files } in
      rename files now (remove_target faults now.target)

  -- The staging directory is there, and the files are written into it.
  abbrev pub fill : Files × Bool → Disk → Disk × Stop
  fill (files, false) d = (record d { staging = some files }, staged)
  fill (files, true) d =
      complete (stage_environment ts p faults files) (record d { staging = some files })

  -- The block under `try`.
  unfoldable pub attempt : Disk → Disk × Stop
  unfolding stage stage_environment remove_target
  attempt d =
      if faults.open_lock || d.lock
      then (d, unstaged)
      else (let held = record d { lock = true } in
          if faults.lstat_target || not (is_safe_target d.target)
          then (held, unstaged)
          else if faults.mkdir_staging
          then (held, staged)
          else fill (stage ts p faults p.files []) held)

  -- `rm(lockPath, { force: true })`.
  abbrev pub remove_lock : Disk → Result WriteError (Unit {0}) → Disk × Result WriteError (Unit {0})
  remove_lock d r =
      if faults.rm_lock then (d, err cleanup_failed) else (record d { lock = false }, r)

  -- `catch` and `finally`. Where the staging directory cannot be removed, the lock is not either.
  abbrev pub finally : Disk × Stop → Disk × Result WriteError (Unit {0})
  finally (d, finished) = remove_lock d (ok tt)
  finally (d, unstaged) = remove_lock d (err unsafe_filesystem)
  finally (d, staged) =
      if faults.rm_staging
      then (d, err cleanup_failed)
      else remove_lock (record d { staging = none }) (err unsafe_filesystem)

  -- `writeInitializerPlan`.
  unfoldable pub write_initializer_plan :
      Runtime → Paths → Disk → Disk × Result WriteError (Unit {0})
  unfolding attempt is_plan
  write_initializer_plan rt paths d =
      if not (is_plan rt paths p)
      then (d, err invalid_plan)
      else if faults.mkdir_parent
      then (d, err mkdir_failed)
      else finally (attempt d)
