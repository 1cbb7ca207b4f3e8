-- ===== src/Bundle/Stages.antt =====
-- The steps of `NewBundle` in bundle/utils.go, from the last one to the first one behind the unit.
use systemd_runtime.Common.{ℕ, Option, none, some, Bool, true, ◌≡◌, ◌⊎◌, inl, inr, refl, ap, arith}
use systemd_runtime.Streams.{FileError}
use systemd_runtime.Units.{Systemd, UnitError}
use systemd_runtime.Bundle.Spec.{Spec, spec_ok, spec_failed, spec_panics, Outcome}
use systemd_runtime.Bundle.Making.{
  Disk, BundleDir, WorkDir, no_work, new_work, config, cut_config, file_error, spec_error,
  status_error, unit_error, MakeAnswers, empty_bundle, status_made, opts_saved, config_written,
  spec_processed, link_made, work_again, work_removed, work_made, mkdir, rootfs_made,
  work_parent_made, bundle_made, parent_made, unit_enabled,
}
use systemd_runtime.Bundle.Undone.{
  CanUndo, Tidy, whole_bundle, undone_all, undone_two, undone_one, undone_none,
}

module _ (a : MakeAnswers) (name j : ℕ) (can : CanUndo a) where
  status_made-Tidy :
      (s : Systemd) (b : BundleDir) (w : WorkDir) (spec : Spec) (o : Option ℕ)
      → record b { status_files = true } ≡ whole_bundle a.spec.0 spec
      → a.spec.1 ≡ spec_ok spec
      → Tidy a name j none w s (status_made a name s b new_work o)
  unfolding status_made
  status_made-Tidy s b w spec (some e) h k = undone_all a name j can s b new_work w (status_error e)
  status_made-Tidy s b w spec none h k = (spec, k, ap some h, refl, refl)

  opts_saved-Tidy :
      (s : Systemd) (b : BundleDir) (w : WorkDir) (spec : Spec) (o : Option FileError)
      → record b { opts = true; status_files = true } ≡ whole_bundle a.spec.0 spec
      → a.spec.1 ≡ spec_ok spec
      → Tidy a name j none w s (opts_saved a name s b new_work o)
  unfolding opts_saved
  opts_saved-Tidy s b w spec (some e) h k = undone_all a name j can s b new_work w (file_error e)
  opts_saved-Tidy s b w spec none h k =
      status_made-Tidy s (record b { opts = true }) w spec a.status_err h k

  config_written-Tidy :
      (s : Systemd) (b : BundleDir) (w : WorkDir) (spec : Spec) (o : Option FileError)
      → record b { config = config spec; opts = true; status_files = true }
        ≡ whole_bundle a.spec.0 spec
      → a.spec.1 ≡ spec_ok spec
      → Tidy a name j none w s (config_written a name s b new_work spec o)
  unfolding config_written
  config_written-Tidy s b w spec (some e) h k =
      undone_all a name j can s (record b { config = cut_config }) new_work w (file_error e)
  config_written-Tidy s b w spec none h k =
      opts_saved-Tidy s (record b { config = config spec }) w spec a.opts_err h k

  spec_processed-Tidy :
      (s : Systemd) (b : BundleDir) (w : WorkDir) (r : Bool × Outcome)
      → b.rootfs ≡ true
      → b.work_link ≡ true
      → a.spec ≡ r
      → Tidy a name j none w s (spec_processed a name s b new_work r)
  unfolding spec_processed
  spec_processed-Tidy s b w (copied, spec_panics) h k e = ap (λ (r : Bool × Outcome). r.1) e
  spec_processed-Tidy s b w (copied, spec_failed x) h k e =
      undone_all a name j can s (record b { merged = copied }) new_work w (spec_error x)
  spec_processed-Tidy s b w (copied, spec_ok spec) h k e =
      config_written-Tidy s (record b { merged = copied }) w spec a.config_err (ground arith)
        (ap (λ (r : Bool × Outcome). r.1) e)

  link_made-Tidy :
      (s : Systemd) (b : BundleDir) (w : WorkDir) (o : Option FileError)
      → b.rootfs ≡ true
      → Tidy a name j none w s (link_made a name s b new_work o)
  unfolding link_made
  link_made-Tidy s b w (some e) h = undone_all a name j can s b new_work w (file_error e)
  link_made-Tidy s b w none h =
      spec_processed-Tidy s (record b { work_link = true }) w a.spec h refl refl

  work_again-Tidy :
      (s : Systemd) (b : BundleDir) (v w : WorkDir) (o : Option FileError)
      → b.rootfs ≡ true
      → (v ≡ w) ⊎ (v ≡ no_work)
      → Tidy a name j none w s (work_again a name s b v o)
  unfolding work_again
  work_again-Tidy s b v w none h k = link_made-Tidy s b w a.link_err h
  work_again-Tidy s b v w (some e) h k = undone_two a name j can s b v w (file_error e) k

  work_removed-Tidy :
      (s : Systemd) (b : BundleDir) (w : WorkDir) (o : Option FileError)
      → b.rootfs ≡ true
      → Tidy a name j none w s (work_removed a name s b w o)
  unfolding work_removed
  work_removed-Tidy s b w none h =
      work_again-Tidy s b no_work w (mkdir no_work a.new_work_err) h (inr refl)
  work_removed-Tidy s b w (some e) h = work_again-Tidy s b w w (mkdir w a.new_work_err) h (inl refl)

  work_made-Tidy :
      (s : Systemd) (b : BundleDir) (w : WorkDir) (o : Option FileError)
      → b.rootfs ≡ true
      → Tidy a name j none w s (work_made a name s b w o)
  unfolding work_made
  work_made-Tidy s b w none h = link_made-Tidy s b w a.link_err h
  work_made-Tidy s b w (some FileError.exist) h = work_removed-Tidy s b w a.old_work_err h
  work_made-Tidy s b w (some FileError.not_exist) h =
      undone_two a name j can s b w w (file_error FileError.not_exist) (inl refl)
  work_made-Tidy s b w (some FileError.already_closed) h =
      undone_two a name j can s b w w (file_error FileError.already_closed) (inl refl)
  work_made-Tidy s b w (some (FileError.errno e)) h =
      undone_two a name j can s b w w (file_error (FileError.errno e)) (inl refl)

  rootfs_made-Tidy :
      (s : Systemd) (b : BundleDir) (w : WorkDir) (o : Option FileError)
      → Tidy a name j none w s (rootfs_made a name s b w o)
  unfolding rootfs_made
  rootfs_made-Tidy s b w (some e) = undone_one a name j can s b w (file_error e)
  rootfs_made-Tidy s b w none =
      work_made-Tidy s (record b { rootfs = true }) w (mkdir w a.work_err) refl

  work_parent_made-Tidy :
      (s : Systemd) (b : BundleDir) (w : WorkDir) (o : Option FileError)
      → Tidy a name j none w s (work_parent_made a name s b w o)
  unfolding work_parent_made
  work_parent_made-Tidy s b w (some e) = undone_one a name j can s b w (file_error e)
  work_parent_made-Tidy s b w none = rootfs_made-Tidy s b w a.rootfs_err

  bundle_made-Tidy :
      (s : Systemd) (bundle : Option BundleDir) (w : WorkDir) (o : Option FileError)
      → Tidy a name j bundle w s (bundle_made a name s bundle w o)
  unfolding bundle_made
  bundle_made-Tidy s (some b) w none =
      undone_none a name j can s (some b) w (file_error FileError.exist)
  bundle_made-Tidy s (some b) w (some e) = undone_none a name j can s (some b) w (file_error e)
  bundle_made-Tidy s none w (some e) = undone_none a name j can s none w (file_error e)
  bundle_made-Tidy s none w none = work_parent_made-Tidy s empty_bundle w a.work_parent_err

  parent_made-Tidy :
      (d : Disk) (o : Option FileError)
      → Tidy a name j d.bundle d.work d.systemd (parent_made a name d o)
  unfolding parent_made
  parent_made-Tidy d (some e) = undone_none a name j can d.systemd d.bundle d.work (file_error e)
  parent_made-Tidy d none = bundle_made-Tidy d.systemd d.bundle d.work a.bundle_err

  pub unit_enabled-Tidy :
      (d : Disk) (s : Systemd) (o : Option UnitError)
      → Tidy a name j d.bundle d.work s (unit_enabled a name d (s, o))
  unfolding unit_enabled
  unit_enabled-Tidy d s (some e) = undone_none a name j can s d.bundle d.work (unit_error e)
  unit_enabled-Tidy d s none = parent_made-Tidy (record d { systemd = s }) a.parent_err
