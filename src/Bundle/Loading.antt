-- ===== src/Bundle/Loading.antt =====
-- bundle/bundle.go: how `LoadTask` comes to the unit of a bundle, over the files of units.
use systemd_runtime.Common.{
  ℕ, Option, none, some, Bool, false, not, ◌≡◌, arith, ◌==◌, is_some, if◌then◌else◌,
}
use systemd_runtime.Common.Maps.{lookup}
use systemd_runtime.Units
use systemd_runtime.Units.{
  Systemd, Detail, UnitError, unit_not_exists, unit_exists, os_error, systemctl_error, get_unit,
  create, enable_unit,
}

abbrev pub enoent : ℕ
enoent = 2

-- `os.IsNotExist`: it knows errors of system calls by their number, and none that `errors.New` made.
unfoldable pub is_not_exist : UnitError → Bool
is_not_exist unit_exists = false
is_not_exist unit_not_exists = false
is_not_exist (os_error e) = e == enoent
is_not_exist (systemctl_error e) = false

pub data LoadError : Type 0 where
  unit_error : UnitError → LoadError
  load_opts_error command_error : ℕ → LoadError

-- The answers: to the lookup of the unit, to reading the options, to finding the command, to the
-- creation of the unit, and to enabling it.
pub record LoadAnswers : Type 0 where
  pub lookup : Units.Answers
  pub opts_err : Option ℕ
  pub command_err : Option ℕ
  pub create : Units.Answers
  pub enable : Option ℕ

-- `Enable` of the unit that is made again.
recreated : LoadAnswers → ℕ → Systemd × Option UnitError → Systemd × Option LoadError
recreated a name (s, some e) = (s, some (unit_error e))
recreated a name (s, none) = elim (enable_unit s name a.enable).1 [
  | some e ↦ ((enable_unit s name a.enable).0, some (unit_error e))
  | none ↦ ((enable_unit s name a.enable).0, none)
]

-- `recreateSystemdUnit`, with `Enable` behind it.
unfoldable pub recreate_systemd_unit :
    LoadAnswers → ℕ → Detail → Systemd → Systemd × Option LoadError
unfolding recreated
recreate_systemd_unit a name detail s = elim a.opts_err [
  | some e ↦ (s, some (load_opts_error e))
  | none ↦ elim a.command_err [
    | some e ↦ (s, some (command_error e))
    | none ↦ recreated a name (create s a.create name detail)
  ]
]

-- `LoadTask`, from `GetUnit` on.
unfoldable pub load_unit : LoadAnswers → ℕ → Detail → Systemd → Systemd × Option LoadError
unfolding recreate_systemd_unit is_not_exist
load_unit a name detail s = elim (get_unit s a.lookup name) [
  | none ↦ (s, none)
  | some e ↦
      if not (is_not_exist e)
      then (s, some (unit_error e))
      else recreate_systemd_unit a name detail s
]

-- `LoadTask` never makes a missing unit again: where the unit file can be looked for, it changes no unit
-- file and makes no call of systemctl, whatever the other calls would answer; it returns no error if
-- the file is there, and else the error that the unit does not exist, which `os.IsNotExist` does not
-- know.
pub load_unit_lem :
    (a : LoadAnswers) (name : ℕ) (detail : Detail) (s : Systemd)
    → a.lookup.stat_err ≡ none
    → load_unit a name detail s
      ≡ (s, if is_some (lookup name s.files) then none else some (unit_error unit_not_exists))
unfolding load_unit get_unit
load_unit_lem a name detail s h = ground arith
