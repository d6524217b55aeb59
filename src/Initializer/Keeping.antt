-- ===== src/Initializer/Keeping.antt =====
-- `writeInitializerPlan` writes a project whole or leaves the target alone.
use mathlib.Core.List.{append-nil, append_assoc}
use meterkit.Prelude.{
  String, Bool, true, false, not, ◌||◌, ◌==◌, ◌≡◌, ◌⊎◌, refl, sym, ap, ◌∙◌, inl, inr, Option, none,
  some, List, [], ◌∷◌, ◌++◌, lookup, Result, ok, err, arith, Bool-cases, Option-cases, eq_iff,
}
use meterkit.Platform.{Runtime}
use meterkit.Initializer.{PlannedFile, Plan, Paths, is_plan}
use meterkit.Initializer.Planning.{Templates, fingerprint_of}
use meterkit.Initializer.Writing.{
  Files, Target, absent, other, directory, Disk, Faults, WriteError, invalid_plan, mkdir_failed,
  unsafe_filesystem, Stop, finished, unstaged, staged, is_safe_target, render_template,
  replace_first, placeholder, put, stage_file, stage, environment_name, stage_environment,
  remove_target, rename, complete, fill, attempt, finally, write_initializer_plan,
}

module _ {B : Type 0} (ts : Templates B) (p : Plan) where
  -- Each file of a plan with its template, which still has the fingerprint of the plan, rendered.
  abbrev pub Rendered : List PlannedFile → Files → Type 0
  Rendered [] [] = Unit
  Rendered (f ∷ fs) ((path, text) ∷ files) =
      (path ≡ f.path)
      × ((b : B) × (ts.read p.surface f.path ≡ some b)
          × (fingerprint_of ts b ≡ f.fingerprint)
          × (text ≡ render_template p (ts.decode b)))
      × Rendered fs files
  Rendered _ _ = ⊥

  -- The file with the environment of a plan that has a recipient.
  abbrev pub Environment : Option String → Files → Files → Type 0
  Environment none base files = files ≡ base
  Environment (some recipient) base files =
      (text : String) × (lookup ".env.example" base ≡ some text)
      × (files
          ≡ base ++ (environment_name p.surface, replace_first placeholder recipient text) ∷ [])

  module _ (faults : Faults) where
    put-append :
        (path text : String) (files files' : Files)
        → put ts p faults path text files ≡ some files'
        → files' ≡ files ++ (path, text) ∷ []
    unfolding put
    put-append path text files files' h = ground arith

    stage_file-append :
        (f : PlannedFile) (files files' : Files)
        → stage_file ts p faults f files ≡ some files'
        → (b : B) × (ts.read p.surface f.path ≡ some b)
          × (fingerprint_of ts b ≡ f.fingerprint)
          × (files' ≡ files ++ (f.path, render_template p (ts.decode b)) ∷ [])
    unfolding stage_file
    stage_file-append f files files' h = elim (Option-cases (ts.read p.surface f.path)) [
      | inl e ↦ cc (rw e at h)
      | inr (b, e) ↦ elim (Bool-cases (fingerprint_of ts b == f.fingerprint)) [
        | inl same ↦ (
          b,
          e,
          (eq_iff (fingerprint_of ts b) f.fingerprint).0 same,
          put-append f.path (render_template p (ts.decode b)) files files' (rw (e, same) at h),
        )
        | inr differs ↦ cc (rw (e, differs) at h)
      ]
    ]

    stage-Rendered :
        (fs : List PlannedFile) (files out : Files)
        → stage ts p faults fs files ≡ (out, true)
        → (base : Files) × (out ≡ files ++ base) × Rendered fs base
    unfolding stage
    stage-Rendered [] files out h = ([], cc (append-nil files, h), tt)
    stage-Rendered (f ∷ fs) files out h = elim (Option-cases (stage_file ts p faults f files)) [
      | inl e ↦ cc (rw (e, stage) at h)
      | inr (next, e) ↦
          let (b, found, same, grown) = stage_file-append f files next e in
          let (base, whole, rendered) = stage-Rendered fs next out (rw (e, stage) at h) in
          (
            (f.path, render_template p (ts.decode b)) ∷ base,
            whole
                ∙ ap (λ z. z ++ base) grown
                ∙ append_assoc files ((f.path, render_template p (ts.decode b)) ∷ []) base,
            (refl, (b, found, same, refl), rendered),
          )
    ]

    stage_environment-Environment :
        (base files : Files)
        → stage_environment ts p faults base ≡ some files
        → Environment p.recipient base files
    unfolding stage_environment
    stage_environment-Environment base files h = go p.recipient h
      where
        go :
            (r : Option String)
            → stage_environment ts (record p { recipient = r }) faults base ≡ some files
            → Environment r base files
        go none h = cc
        go (some recipient) h = elim (Option-cases (lookup ".env.example" base)) [
          | inl e ↦ cc (rw e at h)
          | inr (text, e) ↦ (
            text,
            e,
            put-append (environment_name p.surface) (replace_first placeholder recipient text) base
                files (rw e at h),
          )
        ]

-- A target that was written whole, one that was not touched by the writer but for the empty directory
-- that it took away, and how the block under `try` ends.
module _ {B : Type 0} (ts : Templates B) (p : Plan) (meanwhile : Target → Target) where
  abbrev pub Whole : Disk → Target → Type 0
  Whole d t =
      (is_safe_target d.target ≡ true)
      × (is_safe_target (meanwhile d.target) ≡ true)
      × (base : Files) × (files : Files) × Rendered ts p p.files base
      × Environment ts p p.recipient base files
      × (t ≡ directory files)

  abbrev pub Alone : Disk → Target → Type 0
  Alone d t =
      (t ≡ d.target)
      ⊎ ((t ≡ meanwhile d.target) ⊎ ((meanwhile d.target ≡ directory []) × (t ≡ absent)))

  abbrev Ended : Disk → Disk × Stop → Type 0
  Ended d (d', finished) = (d'.staging ≡ none) × Whole d d'.target
  Ended d (d', unstaged) = (d'.target ≡ d.target) × (d'.staging ≡ d.staging)
  Ended d (d', staged) = Alone d d'.target

  module _ (faults : Faults) where
    rename-Ended :
        (d : Disk) (base files : Files) (t : Target) (b : Bool)
        → is_safe_target d.target ≡ true
        → Rendered ts p p.files base
        → Environment ts p p.recipient base files
        → meanwhile d.target ≡ t
        → Ended d (
            rename ts p faults meanwhile files
              (record d { target = t; lock = b; staging = some files })
              (remove_target faults t))
    unfolding remove_target
    rename-Ended d base files absent b safe rendered environment e =
        elim (Bool-cases faults.rename_staging) [
          | inl f ↦ rw f (inr (inl (sym e)))
          | inr f ↦ rw f (refl, (safe, rw e refl, base, files, rendered, environment, refl))
        ]
    rename-Ended d base files (directory []) b safe rendered environment e =
        elim (Bool-cases faults.rmdir_target) [
          | inl g ↦ rw g (inr (inl (sym e)))
          | inr g ↦ elim (Bool-cases faults.rename_staging) [
            | inl f ↦ rw (g, f) (inr (inr (e, refl)))
            | inr f ↦ rw (g, f) (refl, (safe, rw e refl, base, files, rendered, environment, refl))
          ]
        ]
    rename-Ended d base files (directory (f ∷ fs)) b safe rendered environment e = inr (inl (sym e))
    rename-Ended d base files other b safe rendered environment e = inr (inl (sym e))

    complete-Ended :
        (d : Disk) (base : Files) (o : Option Files) (b : Bool)
        → is_safe_target d.target ≡ true
        → Rendered ts p p.files base
        → stage_environment ts p faults base ≡ o
        → Ended d (complete ts p faults meanwhile o (record d { lock = b; staging = some base }))
    complete-Ended d base none b safe rendered e = inl refl
    complete-Ended d base (some files) b safe rendered e =
        rename-Ended d base files (meanwhile d.target) b safe rendered
          (stage_environment-Environment ts p faults base files e) refl

    fill-Ended :
        (d : Disk) (out : Files × Bool) (b : Bool)
        → is_safe_target d.target ≡ true
        → stage ts p faults p.files [] ≡ out
        → Ended d (fill ts p faults meanwhile out (record d { lock = b }))
    fill-Ended d (files, false) b safe e = inl refl
    fill-Ended d (files, true) b safe e =
        let (base, whole, rendered) = stage-Rendered ts p faults p.files [] files e in
        complete-Ended d files (stage_environment ts p faults files) b safe (rw whole rendered) refl

    attempt-Ended : (d : Disk) → Ended d (attempt ts p faults meanwhile d)
    unfolding attempt
    attempt-Ended d = elim (Bool-cases (faults.open_lock || d.lock)) [
      | inl e ↦ rw e (refl, refl)
      | inr e ↦ elim (Bool-cases (faults.lstat_target || not (is_safe_target d.target))) [
        | inl f ↦ rw (e, f) (refl, refl)
        | inr f ↦ elim (Bool-cases faults.mkdir_staging) [
          | inl g ↦ rw (e, f, g) (inl refl)
          | inr g ↦ rw (e, f, g) (fill-Ended d _ true (ground arith) refl)
        ]
      ]
    ]

    abbrev pub IsAtomic : Disk → Disk × Result WriteError (Unit {0}) → Type 0
    IsAtomic d out =
        (out.0.staging ≡ none)
        × (((out.1 ≡ ok tt) × (out.0.lock ≡ false) × Whole d out.0.target)
            ⊎ ((e : WriteError) × (out.1 ≡ err e) × Alone d out.0.target))

    finally-IsAtomic :
        (d : Disk) (out : Disk × Stop)
        → d.staging ≡ none
        → faults.rm_staging ≡ false
        → faults.rm_lock ≡ false
        → Ended d out
        → IsAtomic d (finally ts p faults meanwhile out)
    finally-IsAtomic d (d', finished) h f g (clean, whole) = rw g (clean, inl (refl, refl, whole))
    finally-IsAtomic d (d', unstaged) h f g (kept, clean) =
        rw g (clean ∙ h, inr (unsafe_filesystem, refl, inl kept))
    finally-IsAtomic d (d', staged) h f g alone =
        rw (f, g) (refl, inr (unsafe_filesystem, refl, alone))

    module _ (rt : Runtime) (paths : Paths) where
      -- However the calls on the file system go, once a write of a plan has ended and could clean up, its
      -- staging directory is gone, and either it reports success, the lock is gone, and the target, which
      -- was absent or empty both at the start and at the end, has exactly the files of the plan, each
      -- rendered from a template with the fingerprint of the plan, and the environment file if the plan
      -- has a recipient; or it reports an error, and the target is as it was or as others left it, but
      -- that an empty directory there may be gone.
      pub write-IsAtomic :
          (d : Disk)
          → d.staging ≡ none
          → faults.rm_staging ≡ false
          → faults.rm_lock ≡ false
          → IsAtomic d (write_initializer_plan ts p faults meanwhile rt paths d)
      unfolding write_initializer_plan
      write-IsAtomic d h f g = elim (Bool-cases (is_plan rt paths p)) [
        | inr e ↦ rw e (h, inr (invalid_plan, refl, inl refl))
        | inl e ↦ elim (Bool-cases faults.mkdir_parent) [
          | inl m ↦ rw (e, m) (h, inr (mkdir_failed, refl, inl refl))
          | inr m ↦
              rw (e, m)
                (finally-IsAtomic d (attempt ts p faults meanwhile d) h f g (attempt-Ended d))
        ]
      ]
