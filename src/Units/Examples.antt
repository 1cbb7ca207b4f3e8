-- ===== src/Units/Examples.antt =====
-- Runs of the operations on units of systemd/.
use systemd_runtime.Common.{ℕ, [], ◌∷◌, none, some, ◌≡◌, refl, ◌==◌, if◌then◌else◌}
use systemd_runtime.Common.Maps.{lookup}
use systemd_runtime.Common.Texts.{codes, lines, values}
use systemd_runtime.Units.{Detail, Systemd, Answers, print, create, get_unit, delete_if_present}
use systemd_runtime.Units.Lines.{IsPrintable, unit_lines, print_lem}
use systemd_runtime.Units.Created.{create_lem}

abbrev detail : Detail
detail = record {
  unit = record { description = codes "c1" };
  service = record {
    kind = codes "exec";
    working_directory = codes "/run";
    exec_start = codes "shim" ∷ codes "start" ∷ [];
    environment = codes "A=1" ∷ codes "B=2" ∷ [];
  };
  install = record { wanted_by = codes "multi-user.target" };
}

detail-IsPrintable : IsPrintable detail
detail-IsPrintable = record {
  description = search;
  kind = search;
  working_directory = search;
  environment = search;
  exec_start = search;
  wanted_by = search;
}

print_lem_example :
    (lines (print detail) ≡ unit_lines detail)
    × (values (codes "Description=") (lines (print detail)) ≡ codes "c1" ∷ [])
    × (values (codes "Type=") (lines (print detail)) ≡ codes "exec" ∷ [])
    × (values (codes "Restart=") (lines (print detail)) ≡ codes "always" ∷ [])
    × (values (codes "WorkingDirectory=") (lines (print detail)) ≡ codes "/run" ∷ [])
    × (values (codes "Environment=") (lines (print detail))
        ≡ codes "\"A=1\"" ∷ codes "\"B=2\"" ∷ [])
    × (values (codes "ExecStart=") (lines (print detail)) ≡ codes "shim start" ∷ [])
    × (values (codes "WantedBy=") (lines (print detail)) ≡ codes "multi-user.target" ∷ [])
print_lem_example = print_lem detail detail-IsPrintable

abbrev no_errors : Answers
no_errors = record {
  stat_err = none;
  open_err = none;
  write_err = none;
  close_err = none;
  remove_err = none;
}

abbrev one_unit : Systemd
one_unit = record { files = (1, codes "x") ∷ []; calls = [] }

unit_created : (create one_unit no_errors 2 detail).1 ≡ none
unfolding create lookup
unit_created = refl

create_lem_example :
    (lookup 2 one_unit.files ≡ none)
    × ((j : ℕ)
        → lookup j (create one_unit no_errors 2 detail).0.files
          ≡ (if 2 == j then some (print detail) else lookup j one_unit.files))
    × ((create one_unit no_errors 2 detail).0.calls ≡ one_unit.calls)
    × (get_unit (create one_unit no_errors 2 detail).0 no_errors 2 ≡ none)
    × ((j : ℕ)
        → lookup j (delete_if_present (create one_unit no_errors 2 detail).0 no_errors 2).0.files
          ≡ lookup j one_unit.files)
create_lem_example = create_lem one_unit no_errors no_errors 2 detail unit_created refl refl
