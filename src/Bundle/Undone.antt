-- ===== src/Bundle/Undone.antt =====
-- The deferred functions of `NewBundle` in bundle/utils.go, and what is said of its outcomes.
use systemd_runtime.Common.{
  ℕ, List, [], ◌∷◌, Option, none, some, Bool, true, ◌≡◌, ◌⊎◌, inl, inr, refl, ap, ◌∙◌, arith, ◌==◌,
  if◌then◌else◌,
}
use systemd_runtime.Common.Maps.{lookup, lookup-erase}
use systemd_runtime.Units.{Systemd, disable_if_present, delete_if_present}
use systemd_runtime.Bundle.Spec.{Spec, spec_ok, spec_panics}
use systemd_runtime.Bundle.Making.{
  Disk, BundleDir, WorkDir, no_work, new_work, config, MakeAnswers, MakeError, Made, bundle_path,
  rootfs_path, Result, returns, panics, undone, remove_paths, undo_unit, disk, all_paths,
}

-- What the deferred functions call succeeds.
pub record CanUndo (a : MakeAnswers) : Type 0 where
  pub stat_known : a.undo_unit.stat_err ≡ none
  pub can_remove : a.undo_unit.remove_err ≡ none
  pub bundle_removed : a.undo_bundle_err ≡ none
  pub work_removed : a.undo_work_err ≡ none

-- The bundle of a task that is made: all that is in its directory.
abbrev pub whole_bundle : (copied : Bool) → Spec → BundleDir
whole_bundle copied s = record {
  rootfs = true;
  work_link = true;
  merged = copied;
  config = config s;
  opts = true;
  status_files = true;
}

-- What is said of each outcome, where the deferred function for the unit is in place: `bundle` and
-- `work` are what a failure leaves, `s` are the units.
abbrev pub Tidy :
    (a : MakeAnswers) (name j : ℕ) (bundle : Option BundleDir) (work : WorkDir) (s : Systemd)
    → Result
    → Type 0
Tidy a name j bundle work s (returns d (some e)) =
    (d.bundle ≡ bundle)
    × ((d.work ≡ work) ⊎ (d.work ≡ no_work))
    × (lookup j d.systemd.files ≡ (if name == j then none else lookup j s.files))
Tidy a name j bundle work s (returns d none) =
    (spec : Spec) × (a.spec.1 ≡ spec_ok spec)
    × (d.bundle ≡ some (whole_bundle a.spec.0 spec))
    × (d.work ≡ new_work)
    × (d.systemd ≡ s)
Tidy a name j bundle work s (panics d) = a.spec.1 ≡ spec_panics

module _ (a : MakeAnswers) (name j : ℕ) (can : CanUndo a) where
  undo_files :
      (d : Disk)
      → lookup j (undo_unit a name d).systemd.files
        ≡ (if name == j then none else lookup j d.systemd.files)
  unfolding undo_unit disable_if_present delete_if_present
  undo_files d = ground (arith, lookup-erase j name d.systemd.files, can.stat_known, can.can_remove)

  -- A return with an error, after the removal of these paths.
  undone-Tidy :
      (bundle : Option BundleDir) (work : WorkDir) (paths : List Made) (e : MakeError) (d : Disk)
      → (remove_paths a paths d).bundle ≡ bundle
      → ((remove_paths a paths d).work ≡ work) ⊎ ((remove_paths a paths d).work ≡ no_work)
      → (remove_paths a paths d).systemd ≡ d.systemd
      → Tidy a name j bundle work d.systemd (undone a name paths e d)
  unfolding undone undo_unit
  undone-Tidy bundle work paths e d b w s = (
    b,
    w,
    undo_files (remove_paths a paths d)
        ∙ ap (λ (t : Systemd). if name == j then none else lookup j t.files) s,
  )

  pub undone_all :
      (s : Systemd) (b : BundleDir) (v w : WorkDir) (e : MakeError)
      → Tidy a name j none w s (undone a name (all_paths a name) e (disk s b v))
  unfolding remove_paths
  undone_all s b v w e =
      undone-Tidy none w (all_paths a name) e (disk s b v) (ground arith) (inr (ground arith))
        (ground arith)

  pub undone_two :
      (s : Systemd) (b : BundleDir) (v w : WorkDir) (e : MakeError)
      → (v ≡ w) ⊎ (v ≡ no_work)
      → Tidy a name j none w s (undone a name (bundle_path ∷ rootfs_path ∷ []) e (disk s b v))
  unfolding remove_paths
  undone_two s b v w e h =
      undone-Tidy none w (bundle_path ∷ rootfs_path ∷ []) e (disk s b v) (ground arith)
        (ground arith) (ground arith)

  pub undone_one :
      (s : Systemd) (b : BundleDir) (w : WorkDir) (e : MakeError)
      → Tidy a name j none w s (undone a name (bundle_path ∷ []) e (disk s b w))
  unfolding remove_paths
  undone_one s b w e =
      undone-Tidy none w (bundle_path ∷ []) e (disk s b w) (ground arith) (ground arith)
        (ground arith)

  pub undone_none :
      (s : Systemd) (bundle : Option BundleDir) (w : WorkDir) (e : MakeError)
      → Tidy a name j bundle w s
          (undone a name [] e (record { systemd = s; bundle = bundle; work = w }))
  unfolding remove_paths
  undone_none s bundle w e = undone-Tidy bundle w [] e _ refl (inl refl) refl
