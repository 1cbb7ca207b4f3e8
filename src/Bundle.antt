-- ===== src/Bundle.antt =====
-- bundle/bundle.go: the operations of a bundle that go through its status files, and
-- common/cleanup.go. Calls of runc, mount, systemd and the event exchange are recorded as actions or
-- have their answers as arguments.
pub mod Disabling
pub mod Cleanup
pub mod Spec
pub mod Specs
pub mod Making
pub mod Undone
pub mod Stages
pub mod Made
pub mod Loading
pub mod Deleting
pub mod Command
pub mod Commands
pub mod Deleted
mod Examples
mod Runs
use systemd_runtime.Common.{
  ℕ, ◌+◌, ◌%◌, ◌^◌, List, [], ◌∷◌, ◌++◌, Option, none, some, Bool, true, false, not, ◌&&◌,
  if◌then◌else◌, is_some,
}
use systemd_runtime.Flock.{Error, bundle_disabled}
use systemd_runtime.Status.{
  Exit, ShimStatus, StatusManager, World, Result, returns, blocks, lock_for_cleanup,
  lock_for_task_manager, update_status, unlock_status_file, release_locks, unlocked,
}

-- What is done outside the program.
pub data Action : Type 0 where
  publish_task_paused runc_delete unmount_rootfs delete_bundle_path : Action

-- `DeleteResponse`: the exit status that is reported for a container that was cleaned up.
pub record DeleteResponse : Type 0 where
  pub exit_status : ℕ
  pub exited_at : ℕ

abbrev pub sigkill : ℕ
sigkill = 9

-- `common.Cleanup`. The errors of runc, of the unmount and of the deletion are only logged.
unfoldable pub common_cleanup :
    (clean_bundle : Bool) (opts_err : Option Error) (now : ℕ)
    → List Action × Option DeleteResponse × Option Error
common_cleanup clean_bundle (some e) now = ([], none, some e)
common_cleanup clean_bundle none now = (
  runc_delete ∷ unmount_rootfs ∷ (if clean_bundle then delete_bundle_path ∷ [] else []),
  some (record { exit_status = 128 + sigkill; exited_at = now }),
  none,
)

cleanup_locked :
    StatusManager
    → World
    → Option Error
    → Option Error
    → ℕ
    → ShimStatus × Bool × Option Error
    → Result (List Action × Option Error)
cleanup_locked mng w opts_err unlock2 now (status, locked, some e) = returns mng ([], some e)
cleanup_locked mng w opts_err unlock2 now (status, locked, none) =
    let released = (release_locks mng w.unlock_err unlock2).0 in
    if locked
    then (let (actions, response, err) = common_cleanup false opts_err now in
        returns released (
          (if status.created && not status.disabled
              then publish_task_paused ∷ actions
              else actions),
          err,
        ))
    else returns released ([], none)

-- `Bundle.Cleanup`. `unlock2` is the answer to unlocking the running file.
pub cleanup :
    StatusManager
    → World
    → (opts_err unlock2 : Option Error) (now : ℕ) → Result (List Action × Option Error)
unfolding cleanup_locked
cleanup mng w opts_err unlock2 now = elim (lock_for_cleanup mng w) [
  | blocks mng1 ↦ blocks mng1
  | returns mng1 res ↦ cleanup_locked mng1 w opts_err unlock2 now res
]

-- The exit that is made up for a shim that is gone and left none; `uint32(status.PID)`.
abbrev pub guessed_exit : ShimStatus → ℕ → Exit
guessed_exit status now = record { pid = status.pid % 2 ^ 32; status = 0; timestamp = now }

-- The deferred unlock behind a call that may have unlocked before.
unlock_after : {A : Type 0} → World → A → Result (Option Error) → Result (A × Option Error)
unlock_after w a (returns mng err) = returns (unlocked mng w) (a, err)
unlock_after w a (blocks mng) = blocks mng

disable_locked :
    StatusManager
    → World
    → ℕ
    → ShimStatus × Bool × Option Error
    → Result ((ShimStatus × Bool) × Option Error)
unfolding unlock_after
disable_locked mng w now (status, running, some e) = returns mng ((status, running), some e)
disable_locked mng w now (status, running, none) =
    if status.disabled
    then returns (unlocked mng w) ((status, running), none)
    else (let new_status = record status { disabled = true } in
        let shown =
          if not running && not (is_some status.exit)
          then record status { exit = some (guessed_exit status now) }
          else status in
        unlock_after w (shown, running) (update_status mng w new_status))

-- `Bundle.Disable`: the status that it returns, whether the shim runs, and the error.
pub disable : StatusManager → World → (now : ℕ) → Result ((ShimStatus × Bool) × Option Error)
unfolding disable_locked
disable mng w now = elim (lock_for_task_manager mng w) [
  | blocks mng1 ↦ blocks mng1
  | returns mng1 res ↦ disable_locked mng1 w now res
]

exited_locked :
    StatusManager
    → World
    → ShimStatus × Bool × Option Error
    → Result (Option Exit × Bool × Option Error)
exited_locked mng w (status, running, some e) = returns mng (none, false, some e)
exited_locked mng w (status, running, none) = returns (unlocked mng w) (status.exit, running, none)

pub exited : StatusManager → World → Result (Option Exit × Bool × Option Error)
unfolding exited_locked
exited mng w = elim (lock_for_task_manager mng w) [
  | blocks mng1 ↦ blocks mng1
  | returns mng1 res ↦ exited_locked mng1 w res
]

-- The correction of `ShimStatus` was written or not; its error is only logged.
shown_after :
    World → ShimStatus → Bool → Result (Option Error) → Result (ShimStatus × Bool × Option Error)
shown_after w status running (returns mng err) = returns (unlocked mng w) (status, running, none)
shown_after w status running (blocks mng) = blocks mng

shim_status_locked :
    StatusManager
    → World
    → ℕ
    → ShimStatus × Bool × Option Error
    → Result (ShimStatus × Bool × Option Error)
unfolding shown_after
shim_status_locked mng w now (status, running, some e) = returns mng (status, running, some e)
shim_status_locked mng w now (status, running, none) =
    if status.disabled && not (is_some status.exit)
    then (let corrected = record status { exit = some (guessed_exit status now) } in
        shown_after w corrected running (update_status mng w corrected))
    else returns (unlocked mng w) (status, running, none)

-- `Bundle.ShimStatus`
pub shim_status : StatusManager → World → (now : ℕ) → Result (ShimStatus × Bool × Option Error)
unfolding shim_status_locked
shim_status mng w now = elim (lock_for_task_manager mng w) [
  | blocks mng1 ↦ blocks mng1
  | returns mng1 res ↦ shim_status_locked mng1 w now res
]

-- What `GetUnit` finds: the unit, an error that `os.IsNotExist` knows, or another one. (Loading has what
-- it comes to over the files of units.)
pub data UnitLookup : Type 0 where
  unit_found unit_missing : UnitLookup
  unit_error : Error → UnitLookup

find_unit : UnitLookup → (create_err enable_err : Option Error) → Option Error
find_unit unit_found create_err enable_err = none
find_unit (unit_error e) create_err enable_err = some e
find_unit unit_missing (some e) enable_err = some e
find_unit unit_missing none enable_err = enable_err

load_locked :
    StatusManager
    → UnitLookup
    → (create_err enable_err : Option Error) → ShimStatus × Bool × Option Error
    → Result (Option Error)
unfolding find_unit
load_locked mng unit create_err enable_err (status, running, some e) = returns mng (some e)
load_locked mng unit create_err enable_err (status, running, none) =
    if status.disabled && not running
    then returns mng (some bundle_disabled)
    else returns mng (find_unit unit create_err enable_err)

-- `Bundle.LoadTask`: the error, or none if a task is made.
pub load_task :
    StatusManager
    → World
    → (now : ℕ) → UnitLookup
    → (create_err enable_err : Option Error) → Result (Option Error)
unfolding load_locked
load_task mng w now unit create_err enable_err = elim (shim_status mng w now) [
  | blocks mng1 ↦ blocks mng1
  | returns mng1 res ↦ load_locked mng1 unit create_err enable_err res
]
