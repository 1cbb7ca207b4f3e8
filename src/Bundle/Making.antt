-- ===== src/Bundle/Making.antt =====
-- bundle/utils.go: `NewBundle`, over the units of systemd and the directories of the bundle. What the
-- file system answers is an argument; a directory that is there already makes `Mkdir` fail.
use systemd_runtime.Common.{ℕ, List, [], ◌∷◌, Option, none, some, Bool, true, false}
use systemd_runtime.Streams.{FileError, exist}
use systemd_runtime.Units.{
  Systemd, UnitError, Detail, create, enable_unit, disable_if_present, delete_if_present,
}
use systemd_runtime.Units
use systemd_runtime.Bundle.Spec.{Spec, SpecError, Outcome, spec_ok, spec_failed, spec_panics}

-- `config.json`: none, one whose writing failed, or a whole one.
pub data Config : Type 0 where
  no_config cut_config : Config
  config : Spec → Config

-- The directory of a bundle.
pub record BundleDir : Type 0 where
  pub rootfs : Bool
  pub work_link : Bool
  pub merged : Bool
  pub config : Config
  pub opts : Bool
  pub status_files : Bool

-- The working directory: none, one from before, or one that is made and empty.
pub data WorkDir : Type 0 where
  no_work used_work new_work : WorkDir

pub record Disk : Type 0 where
  pub systemd : Systemd
  pub bundle : Option BundleDir
  pub work : WorkDir

pub data MakeError : Type 0 where
  invalid_id command_error : ℕ → MakeError
  unit_error : UnitError → MakeError
  file_error : FileError → MakeError
  spec_error : SpecError → MakeError
  status_error : ℕ → MakeError

-- The answers, in the order of the calls; then those to the calls of the deferred functions.
pub record MakeAnswers : Type 0 where
  pub id_err : Option ℕ
  pub command_err : Option ℕ
  pub unit : Units.Answers
  pub enable : Option ℕ
  pub parent_err : Option FileError
  pub bundle_err : Option FileError
  pub work_parent_err : Option FileError
  pub rootfs_err : Option FileError
  pub work_err : Option FileError
  pub old_work_err : Option FileError
  pub new_work_err : Option FileError
  pub link_err : Option FileError
  pub spec : Bool × Outcome
  pub config_err : Option FileError
  pub opts_err : Option FileError
  pub status_err : Option ℕ
  pub undo_unit : Units.Answers
  pub undo_enable : Option ℕ
  pub undo_bundle_err : Option FileError
  pub undo_rootfs_err : Option FileError
  pub undo_work_err : Option FileError

-- The entries of `paths`.
pub data Made : Type 0 where
  bundle_path rootfs_path work_path : Made

-- Whether `NewBundle` returns an error or none, or panics.
pub data Result : Type 0 where
  returns : Disk → Option MakeError → Result
  panics : Disk → Result

-- A field of the directory of the bundle.
in_bundle : (BundleDir → BundleDir) → Disk → Disk
in_bundle f d = elim d.bundle [ none ↦ d | some b ↦ record d { bundle = some (f b) } ]

-- `os.RemoveAll`; a failed one is taken to remove nothing.
remove_all : MakeAnswers → Made → Disk → Disk
unfolding in_bundle
remove_all a bundle_path d = elim a.undo_bundle_err [
  | none ↦ record d { bundle = none }
  | some e ↦ d
]
remove_all a rootfs_path d = elim a.undo_rootfs_err [
  | none ↦ in_bundle (λ b. record b { rootfs = false }) d
  | some e ↦ d
]
remove_all a work_path d = elim a.undo_work_err [ none ↦ record d { work = no_work } | some e ↦ d ]

unfoldable pub remove_paths : MakeAnswers → List Made → Disk → Disk
unfolding remove_all
remove_paths a [] d = d
remove_paths a (p ∷ ps) d = remove_paths a ps (remove_all a p d)

-- The deferred function for the unit.
unfoldable pub undo_unit : MakeAnswers → (name : ℕ) → Disk → Disk
undo_unit a name d =
    let disabled = (disable_if_present d.systemd a.undo_unit name a.undo_enable).0 in
    record d { systemd = (delete_if_present disabled a.undo_unit name).0 }

-- A return with an error: the paths are removed, and then the unit.
unfoldable pub undone : MakeAnswers → (name : ℕ) → List Made → MakeError → Disk → Result
unfolding remove_paths undo_unit
undone a name paths e d = returns (undo_unit a name (remove_paths a paths d)) (some e)

abbrev pub empty_bundle : BundleDir
empty_bundle = record {
  rootfs = false;
  work_link = false;
  merged = false;
  config = no_config;
  opts = false;
  status_files = false;
}

-- The disk when the bundle is there.
abbrev pub disk : Systemd → BundleDir → WorkDir → Disk
disk s b w = record { systemd = s; bundle = some b; work = w }

-- What `Mkdir` answers for the working directory: one that is there is refused, with `EEXIST` if the
-- system has no other error.
abbrev pub mkdir : WorkDir → Option FileError → Option FileError
mkdir w (some e) = some e
mkdir no_work none = none
mkdir used_work none = some exist
mkdir new_work none = some exist

-- The steps from the end to the start; the last argument is the answer to the call that is next.
module _ (a : MakeAnswers) (name : ℕ) where
  abbrev pub all_paths : List Made
  all_paths = bundle_path ∷ rootfs_path ∷ work_path ∷ []

  -- `NewStatusManager`, which makes its files.
  unfoldable pub status_made : Systemd → BundleDir → WorkDir → Option ℕ → Result
  unfolding undone
  status_made s b w (some e) = undone a name all_paths (status_error e) (disk s b w)
  status_made s b w none = returns (disk s (record b { status_files = true }) w) none

  -- `SaveOpts`
  unfoldable pub opts_saved : Systemd → BundleDir → WorkDir → Option FileError → Result
  unfolding undone status_made
  opts_saved s b w (some e) = undone a name all_paths (file_error e) (disk s b w)
  opts_saved s b w none = status_made s (record b { opts = true }) w a.status_err

  -- `WriteFile` of the specification.
  unfoldable pub config_written : Systemd → BundleDir → WorkDir → Spec → Option FileError → Result
  unfolding undone opts_saved
  config_written s b w spec (some e) =
      undone a name all_paths (file_error e) (disk s (record b { config = cut_config }) w)
  config_written s b w spec none = opts_saved s (record b { config = config spec }) w a.opts_err

  -- `processSpec`
  unfoldable pub spec_processed : Systemd → BundleDir → WorkDir → Bool × Outcome → Result
  unfolding undone config_written
  spec_processed s b w (copied, spec_panics) = panics (disk s (record b { merged = copied }) w)
  spec_processed s b w (copied, spec_failed e) =
      undone a name all_paths (spec_error e) (disk s (record b { merged = copied }) w)
  spec_processed s b w (copied, spec_ok spec) =
      config_written s (record b { merged = copied }) w spec a.config_err

  -- `Symlink`
  unfoldable pub link_made : Systemd → BundleDir → WorkDir → Option FileError → Result
  unfolding undone spec_processed
  link_made s b w (some e) = undone a name all_paths (file_error e) (disk s b w)
  link_made s b w none = spec_processed s (record b { work_link = true }) w a.spec

  -- The second `Mkdir` of the working directory, which may still be there, on its answer.
  unfoldable pub work_again : Systemd → BundleDir → WorkDir → Option FileError → Result
  unfolding undone link_made
  work_again s b w none = link_made s b new_work a.link_err
  work_again s b w (some e) =
      undone a name (bundle_path ∷ rootfs_path ∷ []) (file_error e) (disk s b w)

  -- `os.RemoveAll` of the working directory, whose error is dropped.
  unfoldable pub work_removed : Systemd → BundleDir → WorkDir → Option FileError → Result
  unfolding work_again
  work_removed s b w none = work_again s b no_work (mkdir no_work a.new_work_err)
  work_removed s b w (some e) = work_again s b w (mkdir w a.new_work_err)

  -- `Mkdir` of the working directory on its answer, and the test of `os.IsExist`.
  unfoldable pub work_made : Systemd → BundleDir → WorkDir → Option FileError → Result
  unfolding undone link_made work_removed
  work_made s b w none = link_made s b new_work a.link_err
  work_made s b w (some FileError.exist) = work_removed s b w a.old_work_err
  work_made s b w (some FileError.not_exist) =
      undone a name (bundle_path ∷ rootfs_path ∷ []) (file_error FileError.not_exist) (disk s b w)
  work_made s b w (some FileError.already_closed) =
      undone a name (bundle_path ∷ rootfs_path ∷ []) (file_error FileError.already_closed)
        (disk s b w)
  work_made s b w (some (FileError.errno e)) =
      undone a name (bundle_path ∷ rootfs_path ∷ []) (file_error (FileError.errno e)) (disk s b w)

  -- `MkdirAll` of the directory for the root.
  unfoldable pub rootfs_made : Systemd → BundleDir → WorkDir → Option FileError → Result
  unfolding undone work_made
  rootfs_made s b w (some e) = undone a name (bundle_path ∷ []) (file_error e) (disk s b w)
  rootfs_made s b w none = work_made s (record b { rootfs = true }) w (mkdir w a.work_err)

  -- `MkdirAll` of the parent of the working directory.
  unfoldable pub work_parent_made : Systemd → BundleDir → WorkDir → Option FileError → Result
  unfolding undone rootfs_made
  work_parent_made s b w (some e) = undone a name (bundle_path ∷ []) (file_error e) (disk s b w)
  work_parent_made s b w none = rootfs_made s b w a.rootfs_err

  -- `Mkdir` of the bundle.
  unfoldable pub bundle_made : Systemd → Option BundleDir → WorkDir → Option FileError → Result
  unfolding undone work_parent_made
  bundle_made s (some b) w none = undone a name [] (file_error exist) (disk s b w)
  bundle_made s (some b) w (some e) = undone a name [] (file_error e) (disk s b w)
  bundle_made s none w (some e) =
      undone a name [] (file_error e) (record { systemd = s; bundle = none; work = w })
  bundle_made s none w none = work_parent_made s empty_bundle w a.work_parent_err

  -- `MkdirAll` of the parent of the bundle.
  unfoldable pub parent_made : Disk → Option FileError → Result
  unfolding undone bundle_made
  parent_made d (some e) = undone a name [] (file_error e) d
  parent_made d none = bundle_made d.systemd d.bundle d.work a.bundle_err

  -- `Enable`
  unfoldable pub unit_enabled : Disk → Systemd × Option UnitError → Result
  unfolding undone parent_made
  unit_enabled d (s, some e) = undone a name [] (unit_error e) (record d { systemd = s })
  unit_enabled d (s, none) = parent_made (record d { systemd = s }) a.parent_err

  -- `CreateSystemdUnit`; the deferred functions come behind it.
  unfoldable pub unit_created : Disk → Systemd × Option UnitError → Result
  unfolding unit_enabled
  unit_created d (s, some e) = returns (record d { systemd = s }) (some (unit_error e))
  unit_created d (s, none) = unit_enabled d (enable_unit s name a.enable)

  -- `SystemdCommand`, in `CreateSystemdUnit`.
  unfoldable pub command_found : Detail → Disk → Option ℕ → Result
  unfolding unit_created
  command_found detail d (some e) = returns d (some (command_error e))
  command_found detail d none = unit_created d (create d.systemd a.unit name detail)

  -- `identifiers.Validate`
  unfoldable pub id_valid : Detail → Disk → Option ℕ → Result
  unfolding command_found
  id_valid detail d (some e) = returns d (some (invalid_id e))
  id_valid detail d none = command_found detail d a.command_err

  -- `NewBundle`; `detail` is what `CreateSystemdUnit` makes of the command.
  unfoldable pub new_bundle : Detail → Disk → Result
  unfolding id_valid
  new_bundle detail d = id_valid detail d a.id_err
