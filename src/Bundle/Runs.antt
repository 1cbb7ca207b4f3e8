-- ===== src/Bundle/Runs.antt =====
-- Runs of making and of deleting a bundle.
use systemd_runtime.Common.{
  is_some, if◌then◌else◌, [], ◌∷◌, none, some, true, false, ◌≡◌, refl, arith,
}
use systemd_runtime.Streams.{FileError}
use systemd_runtime.Units
use systemd_runtime.Common.Texts.{codes}
use systemd_runtime.Bundle.Spec.{Spec, spec_ok, process_spec}
use systemd_runtime.Bundle.Specs.{Processed, process_spec_lem}
use systemd_runtime.Bundle.Making.{Disk, MakeAnswers, used_work, new_bundle}
use systemd_runtime.Bundle.Undone.{CanUndo}
use systemd_runtime.Bundle.Made.{MadeOrSame, new_bundle_lem}
use systemd_runtime.Common.Maps.{lookup}
use systemd_runtime.Units.{unit_not_exists}
use systemd_runtime.Bundle.Loading.{LoadAnswers, load_unit, load_unit_lem, unit_error}
use systemd_runtime.Bundle.Deleting.{Places, DeleteAnswers, delete_bundle_path}
use systemd_runtime.Bundle.Deleted.{DeletedBy, delete_bundle_path_lem}

abbrev given : Spec
given = record {
  process = some (record { apparmor_profile = codes "p"; others = 1 });
  root = some (codes "/o");
  hooks = some (record { prestart = none });
  linux = some (record {
    sysctl = some ((codes "net.ipv4.ip_unprivileged_port_start", codes "0") ∷ []);
    namespaces =
        record { kind = codes "pid"; path = [] }
        ∷ record { kind = codes "network"; path = [] }
        ∷ [];
  });
  others = 2;
}

abbrev processed : Spec
processed = record given {
  process = some (record { apparmor_profile = []; others = 1 });
  root = some (codes "/b/merged");
  linux =
      some
        (record { sysctl = some []; namespaces = record { kind = codes "pid"; path = [] } ∷ [] });
}

spec_run : process_spec (codes "/b") (some given) none true ≡ (true, spec_ok processed)
unfolding process_spec
spec_run = refl

process_spec_lem_example : Processed (codes "/b") true given processed
process_spec_lem_example = process_spec_lem (codes "/b") given processed true none true spec_run

abbrev no_errors : Units.Answers
no_errors = record {
  stat_err = none;
  open_err = none;
  write_err = none;
  close_err = none;
  remove_err = none;
}

-- The link to the working directory cannot be made.
abbrev answers : MakeAnswers
answers = record {
  id_err = none;
  command_err = none;
  unit = no_errors;
  enable = none;
  parent_err = none;
  bundle_err = none;
  work_parent_err = none;
  rootfs_err = none;
  work_err = none;
  old_work_err = none;
  new_work_err = none;
  link_err = some FileError.exist;
  spec = (true, spec_ok processed);
  config_err = none;
  opts_err = none;
  status_err = none;
  undo_unit = no_errors;
  undo_enable = none;
  undo_bundle_err = none;
  undo_rootfs_err = none;
  undo_work_err = none;
}

answers-CanUndo : CanUndo answers
answers-CanUndo = record {
  stat_known = refl;
  can_remove = refl;
  bundle_removed = refl;
  work_removed = refl;
}

abbrev detail : Units.Detail
detail = record {
  unit = record { description = codes "c1" };
  service = record {
    kind = codes "exec";
    working_directory = [];
    exec_start = [];
    environment = [];
  };
  install = record { wanted_by = [] };
}

abbrev before : Disk
before = record { systemd = record { files = []; calls = [] }; bundle = none; work = used_work }

new_bundle_lem_example : MadeOrSame answers 1 2 detail before (new_bundle answers 1 detail before)
new_bundle_lem_example = new_bundle_lem answers 1 2 detail before answers-CanUndo refl refl

abbrev deletes : DeleteAnswers
deletes = record {
  readlink_err = none;
  unmount_err = none;
  rootfs_err = some FileError.not_exist;
  bundle = record { rename_err = none; remove_err = some (FileError.errno 16) };
  work = record { rename_err = none; remove_err = none };
}

abbrev both : Places
both = record {
  bundle = record { shown = true; hidden = false };
  work = record { shown = true; hidden = false };
}

delete_bundle_path_lem_example :
    DeletedBy deletes both (delete_bundle_path deletes both).0 (delete_bundle_path deletes both).1
delete_bundle_path_lem_example =
    delete_bundle_path_lem deletes both refl refl (λ h. ground arith) (λ h. ground arith)

-- There is no unit file, and it could be made.
abbrev loads : LoadAnswers
loads = record {
  lookup = no_errors;
  opts_err = none;
  command_err = none;
  create = no_errors;
  enable = none;
}

load_unit_lem_example : load_unit loads 1 detail before.systemd ≡ (
  before.systemd,
  if is_some (lookup 1 before.systemd.files) then none else some (unit_error unit_not_exists),
)
load_unit_lem_example = load_unit_lem loads 1 detail before.systemd refl
