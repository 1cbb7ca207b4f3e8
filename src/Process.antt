-- ===== src/Process.antt =====
-- process/: the init process of a container and the processes executed beside it. This file has what
-- both share: the errors of process/utils.go and the answers of runc, of fifos and of consoles.
pub mod Errors
pub mod Init
pub mod Exec
mod Examples
use systemd_runtime.Common.{
  ℕ, ◌+◌, List, Option, none, some, Bool, true, false, if◌then◌else◌, is_some,
}
use systemd_runtime.Process.Errors.{RunError, Error, system}

-- The names of `stateName` and `Status`.
pub data StateName : Type 0 where
  created running paused pausing stopped deleted : StateName

-- How a call under the mutex of a process ends; `panics` stands for a closed channel that is closed,
-- or a transition that the caller takes for granted.
pub data Done : Type 0 where
  ok panics : Done
  fails : Error → Done

-- What a process asks of the world between its call of runc and its pid file. The pid is 0 if the
-- file could not be read.
pub record IoWorld : Type 0 where
  pub socket_err : Option ℕ
  pub io_err : Option ℕ
  pub run_err : Option RunError
  pub stdin_err : Option ℕ
  pub master_err : Option ℕ
  pub console_err : Option ℕ
  pub copy_err : Option ℕ
  pub pid_err : Option ℕ
  pub pid : ℕ

-- The fields that starting a process changes.
pub record Attached : Type 0 where
  pub io : Bool
  pub console : Bool
  pub closers : ℕ
  pub pid : ℕ

-- A step of a start: the fields behind it, and the error if it fails.
abbrev pub Start : Type 0
Start = Attached → Attached × Option Error

infixr 6 ◌then_do◌
abbrev pub ◌then_do◌ : Start → Start → Start
◌then_do◌ m k s = let (s', e) = m s in elim e [ some x ↦ (s', some x) | none ↦ k s' ]

abbrev pub check : Option ℕ → Start
check none s = (s, none)
check (some e) s = (s, some (system e))

-- The console socket, or the pipes or fifos of `createIO`.
pub prepare_io : (terminal : Bool) → IoWorld → Start
prepare_io true w = check w.socket_err
prepare_io false w = check w.io_err then_do λ s. (record s { io = true }, none)

-- `openStdin`, if there is a path.
pub open_stdin : (stdin : Bool) → IoWorld → Start
open_stdin false w s = (s, none)
open_stdin true w s =
    (check w.stdin_err then_do λ s. (record s { closers = s.closers + 1 }, none)) s

-- The console of the socket, or the copies of the pipes.
pub copy_io : (terminal : Bool) → IoWorld → Start
copy_io true w =
    check w.master_err then_do check w.console_err then_do λ s. (record s { console = true }, none)
copy_io false w = check w.copy_err

pub read_pid : IoWorld → Start
read_pid w = check w.pid_err then_do λ s. (record s { pid = w.pid }, none)

-- What follows the call of runc.
pub attach : (terminal stdin : Bool) → IoWorld → Start
unfolding open_stdin copy_io read_pid
attach terminal stdin w = open_stdin stdin w then_do copy_io terminal w then_do read_pid w
