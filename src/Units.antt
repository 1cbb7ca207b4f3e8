-- ===== src/Units.antt =====
-- systemd/: the files of units, how they are printed, and the calls of systemctl, which are recorded.
-- The name of a unit stands for its path; what the file system and systemctl answer is an argument.
pub mod Lines
pub mod Created
mod Examples
use systemd_runtime.Common.{
  ℕ, List, [], ◌∷◌, ◌++◌, Option, none, some, Bool, true, false, if◌then◌else◌, is_some, map, drop,
  length,
}
use systemd_runtime.Common.Maps.{lookup, insert, erase}
use systemd_runtime.Common.Texts.{Text, codes, join}

pub record UnitSector : Type 0 where
  pub description : Text

-- `kind` is the field `Type`.
pub record ServiceSector : Type 0 where
  pub kind : Text
  pub working_directory : Text
  pub exec_start : List Text
  pub environment : List Text

pub record InstallSector : Type 0 where
  pub wanted_by : Text

pub record Detail : Type 0 where
  pub unit : UnitSector
  pub service : ServiceSector
  pub install : InstallSector

-- `(Detail).unit`
unfoldable pub print_unit : Detail → Text
print_unit d = codes "[Unit]\nDescription=" ++ d.unit.description

-- An entry of `envs`.
unfoldable pub print_env : Text → Text
print_env env = codes "Environment=\"" ++ (env ++ codes "\"")

-- `(Detail).service`
unfoldable pub print_service : Detail → Text
unfolding print_env
print_service d =
    codes "[Service]\nType="
    ++ (d.service.kind
        ++ (codes "\nRestart=always\nTimeoutStopSec=15\nWorkingDirectory="
            ++ (d.service.working_directory
                ++ (codes "\n"
                    ++ (join (codes "\n") (map print_env d.service.environment)
                        ++ (codes "\nExecStart=" ++ join (codes " ") d.service.exec_start))))))

-- `(Detail).install`
unfoldable pub print_install : Detail → Text
print_install d = codes "[Install]\nWantedBy=" ++ d.install.wanted_by

-- `(Detail).String`
unfoldable pub print : Detail → Text
unfolding print_unit print_service print_install
print d =
    print_unit d
    ++ (codes "\n" ++ (print_service d ++ (codes "\n" ++ (print_install d ++ codes "\n"))))

pub data UnitError : Type 0 where
  unit_exists unit_not_exists : UnitError
  os_error systemctl_error : ℕ → UnitError

pub data Verb : Type 0 where
  enable disable start stop : Verb

-- The files of units by name, and the calls of systemctl, the last one first.
pub record Systemd : Type 0 where
  pub files : List (ℕ × Text)
  pub calls : List (Verb × ℕ)

-- What systemctl and the file system answer: to `os.Stat`, to the opening of a unit file, to writing
-- it (with the part that is written before an error), to closing and to removing it.
pub record Answers : Type 0 where
  pub stat_err : Option ℕ
  pub open_err : Option ℕ
  pub write_err : Option (Text × ℕ)
  pub close_err : Option ℕ
  pub remove_err : Option ℕ

-- `err`, as an error of the package.
abbrev pub failed : Option ℕ → Option UnitError
failed none = none
failed (some e) = some (os_error e)

-- `UnitFileExists`
unfoldable pub unit_file_exists : Systemd → Answers → ℕ → Bool × Option UnitError
unit_file_exists s a name = elim a.stat_err [
  | some e ↦ (false, some (os_error e))
  | none ↦ (is_some (lookup name s.files), none)
]

-- What a file has after a write at its start; the file is not truncated.
abbrev pub overwrite : (new : Text) → Option Text → Text
overwrite new none = new
overwrite new (some old) = new ++ drop (length new) old

write_file : Systemd → ℕ → Text → Systemd
write_file s name new = record s {
  files = insert name (overwrite new (lookup name s.files)) s.files;
}

-- `GenerateSystemdUnitFile`
unfoldable pub generate_systemd_unit_file :
    Systemd → Answers → ℕ → Detail → Systemd × Option UnitError
unfolding write_file
generate_systemd_unit_file s a name detail = elim a.open_err [
  | some e ↦ (s, some (os_error e))
  | none ↦ elim a.write_err [
    | some (part, e) ↦ (write_file s name part, some (os_error e))
    | none ↦ (write_file s name (print detail), failed a.close_err)
  ]
]

-- What follows the test of `Create`.
create_missing :
    Systemd → Answers → ℕ → Detail → Bool × Option UnitError → Systemd × Option UnitError
create_missing s a name detail (present, some e) = (s, some e)
create_missing s a name detail (true, none) = (s, some unit_exists)
create_missing s a name detail (false, none) = generate_systemd_unit_file s a name detail

-- `Create`: the error, or none if there is a unit.
unfoldable pub create : Systemd → Answers → ℕ → Detail → Systemd × Option UnitError
unfolding unit_file_exists create_missing generate_systemd_unit_file
create s a name detail = create_missing s a name detail (unit_file_exists s a name)

found_unit : Bool × Option UnitError → Option UnitError
found_unit (present, some e) = some e
found_unit (true, none) = none
found_unit (false, none) = some unit_not_exists

-- `GetUnit`
unfoldable pub get_unit : Systemd → Answers → ℕ → Option UnitError
unfolding unit_file_exists found_unit
get_unit s a name = found_unit (unit_file_exists s a name)

remove_present : Systemd → Answers → ℕ → Bool × Option UnitError → Systemd × Option UnitError
remove_present s a name (present, some e) = (s, some e)
remove_present s a name (false, none) = (s, none)
remove_present s a name (true, none) = elim a.remove_err [
  | some e ↦ (s, some (os_error e))
  | none ↦ (record s { files = erase name s.files }, none)
]

-- `DeleteSystemdUnitFileIfPresent`, `DeleteUnitIfPresent` and `(Unit).DeleteIfPresent`
unfoldable pub delete_if_present : Systemd → Answers → ℕ → Systemd × Option UnitError
unfolding unit_file_exists remove_present
delete_if_present s a name = remove_present s a name (unit_file_exists s a name)

-- `cmd`: the call is made, and its answer is an error or none.
unfoldable pub cmd : Systemd → Verb → ℕ → (answer : Option ℕ) → Systemd × Option UnitError
cmd s verb name none = (record s { calls = (verb, name) ∷ s.calls }, none)
cmd s verb name (some e) = (record s { calls = (verb, name) ∷ s.calls }, some (systemctl_error e))

-- `doIfPresent`
do_if_present :
    Systemd
    → (Systemd → Systemd × Option UnitError)
    → Bool × Option UnitError
    → Systemd × Option UnitError
do_if_present s f (present, some e) = (s, some e)
do_if_present s f (false, none) = (s, none)
do_if_present s f (true, none) = f s

-- `(Unit).DisableIfPresent`
unfoldable pub disable_if_present :
    Systemd → Answers → ℕ → (answer : Option ℕ) → Systemd × Option UnitError
unfolding unit_file_exists do_if_present cmd
disable_if_present s a name answer =
    do_if_present s (λ t. cmd t disable name answer) (unit_file_exists s a name)

-- `(Unit).Enable`, `(Unit).Start` and `(Unit).Stop`
unfoldable pub enable_unit : Systemd → ℕ → (answer : Option ℕ) → Systemd × Option UnitError
unfolding cmd
enable_unit s name answer = cmd s enable name answer

unfoldable pub start_unit : Systemd → ℕ → (answer : Option ℕ) → Systemd × Option UnitError
unfolding cmd
start_unit s name answer = cmd s start name answer

unfoldable pub stop_unit : Systemd → ℕ → (answer : Option ℕ) → Systemd × Option UnitError
unfolding cmd
stop_unit s name answer = cmd s stop name answer
