-- ===== src/Initializer/Tests.antt =====
-- Projects at concrete inputs.
use text.Mathlib.Text.{starts_with}
use meterkit.Prelude.{
  String, ◌≡◌, refl, true, false, ◌==◌, Option, none, some, [], ◌∷◌, map, if◌then◌else◌, ok, err,
}
use meterkit.Authorization.Tests.{platform, wallet}
use meterkit.Platform.{is_solana_address, is_digest}
use meterkit.Initializer.{
  Surface, express, npm, memory, Plan, Paths, is_plan, is_template_path, is_secret,
}
use meterkit.Initializer.Planning.{
  file, directory, nil, cons, Templates, Options, create_initializer_plan, template_files, planned,
  to_plan, invalid_input,
}
use meterkit.Initializer.Writing.{
  absent, Target, Disk, Faults, unsafe_filesystem, write_initializer_plan, replace_first,
}
use meterkit.Initializer.Keeping.{IsAtomic, write-IsAtomic}

code : Unit {0}
unfolding is_plan is_solana_address is_digest
code = tt

abbrev paths : Paths
paths = record { is_absolute = λ s. starts_with s "/"; normalize = λ s. s; resolve = λ s. s }

abbrev shown : Surface → String → Option String
shown surface path =
    if path == ".env.example"
    then some "W={{RECIPIENT}}"
    else if path == "src/server.ts"
    then some "run {{DEV_COMMAND}}"
    else none

abbrev templates : Templates String
templates = record {
  entries =
      λ s. cons (file ".env.example") (cons (directory "src" (cons (file "server.ts") nil)) nil);
  read = shown;
  digest = λ b. "aaaaaaaaaaaaaaaaaaaaaaaaaaaaaaaaaaaaaaaaaaaaaaaaaaaaaaaaaaaaaaaa";
  decode = λ b. b;
}

abbrev options : Options
options = record {
  surface = "express";
  package_manager = "npm";
  target_directory = "/shop";
  network = none;
  recipient = some wallet;
  durability = none;
}

plan : Plan
unfolding planned to_plan template_files
plan = to_plan platform paths templates express npm "/shop" memory (some wallet) (
    record {
      path = ".env.example";
      fingerprint = "sha256:aaaaaaaaaaaaaaaaaaaaaaaaaaaaaaaaaaaaaaaaaaaaaaaaaaaaaaaaaaaaaaaa";
    }
    ∷ record {
      path = "src/server.ts";
      fingerprint = "sha256:aaaaaaaaaaaaaaaaaaaaaaaaaaaaaaaaaaaaaaaaaaaaaaaaaaaaaaaaaaaaaaaa";
    }
    ∷ [])

created : create_initializer_plan platform paths templates options ≡ ok plan
unfolding create_initializer_plan plan code planned template_files to_plan
created = refl

secret_test :
    create_initializer_plan platform paths templates
      (record options { recipient = some "seedseedseedseedseedseedseedseedseed" })
    ≡ err invalid_input
unfolding create_initializer_plan is_secret
secret_test = refl

-- A path that leaves the directory, one that is absolute, and the name of a device.
paths_test :
    map (is_template_path platform paths) ("a/b" ∷ "../b" ∷ "/b" ∷ "CoM1.txt" ∷ [])
    ≡ true ∷ false ∷ false ∷ false ∷ []
unfolding is_template_path
paths_test = refl

abbrev no_faults : Faults
no_faults = record {
  mkdir_parent = false;
  open_lock = false;
  lstat_target = false;
  mkdir_staging = false;
  write = λ s. false;
  rmdir_target = false;
  rename_staging = false;
  rm_staging = false;
  rm_lock = false;
}

abbrev disk : Disk
disk = record { target = absent; lock = false; staging = none }

abbrev undisturbed : Target → Target
undisturbed t = t

written_test : write_initializer_plan templates plan no_faults undisturbed platform paths disk ≡ (
  record disk {
    target = Target.directory (
        (".env.example", "W=WaaaetWaaaetWaaaetWaaaetWaaaetWaaaet")
        ∷ ("src/server.ts", "run npm run dev")
        ∷ (".env", "W=WaaaetWaaaetWaaaetWaaaetWaaaetWaaaet")
        ∷ []);
  },
  ok tt,
)
unfolding write_initializer_plan plan code replace_first
written_test = refl

-- An empty directory is lost where the rename fails.
lost_test :
    write_initializer_plan templates plan
      (record no_faults { rename_staging = true })
      undisturbed
      platform
      paths
      (record disk { target = Target.directory [] })
    ≡ (disk, err unsafe_filesystem)
unfolding write_initializer_plan plan code
lost_test = refl

accepted : is_plan platform paths plan ≡ true
unfolding plan code
accepted = refl

write-IsAtomic_example :
    IsAtomic templates plan undisturbed no_faults disk
      (write_initializer_plan templates plan no_faults undisturbed platform paths disk)
write-IsAtomic_example =
    write-IsAtomic templates plan undisturbed no_faults platform paths disk refl refl refl

-- The lock of another write is removed by a write that it stops.
locked_test :
    write_initializer_plan templates plan no_faults undisturbed platform paths
      (record disk { lock = true })
    ≡ (disk, err unsafe_filesystem)
unfolding write_initializer_plan plan code
locked_test = refl
