-- ===== src/Status.antt =====
-- common/status.go: the manager of the two lock files of a bundle. `shim.status` holds the status of
-- the shim and is locked while it is read and written; `shim.lock` is locked by a running shim.
-- Files are shared between processes, so what a read finds is an argument of the operation.
pub mod Locks
pub mod Start
mod Examples
use systemd_runtime.Common.{
  ℕ, List, [], ◌∷◌, ◌++◌, Option, none, some, Bool, true, false, not, ◌||◌, ◌&&◌, if◌then◌else◌,
  is_some,
}
use systemd_runtime.Flock.{
  Errno, Error, bundle_disabled, bundle_is_already_running, GetLock, Try, LockRun, acquired, failed,
  waiting, file_can_lock, file_nb_lock, file_lock,
}

-- `runtime.Exit` of containerd.
pub record Exit : Type 0 where
  pub pid : ℕ
  pub status : ℕ
  pub timestamp : ℕ

pub record ShimStatus : Type 0 where
  pub pid : ℕ
  pub created : Bool
  pub disabled : Bool
  pub exit : Option Exit

-- The zero value.
abbrev pub no_status : ShimStatus
no_status = record { pid = 0; created = false; disabled = false; exit = none }

-- The flags of the manager; which locks the kernel holds for this process; what was written to
-- the status file, the last first.
pub record StatusManager : Type 0 where
  pub status_file_locked : Bool
  pub running_file_locked : Bool
  pub status_held : Bool
  pub running_held : Bool
  pub written : List ShimStatus

-- `FileReadJSON` into a zero status: the status (zero if the file is empty), or an error with
-- what the decoder left.
pub data Read : Type 0 where
  read : ShimStatus → Read
  read_failed : ShimStatus → Error → Read

-- An operation returns, or it waits in `FileLock`.
pub data Result (A : Type 0) : Type 0 where
  returns : StatusManager → A → Result A
  blocks : StatusManager → Result A

-- Opening both files: the manager, or an error and whether the status file was closed again.
pub data Opened : Type 0 where
  opened : StatusManager → Opened
  not_opened : (closed_status_file : Bool) → Error → Opened

pub new_status_manager : Option Error → Option Error → Opened
new_status_manager (some e) running = not_opened false e
new_status_manager none (some e) = not_opened true e
new_status_manager none none = opened (record {
  status_file_locked = false;
  running_file_locked = false;
  status_held = false;
  running_held = false;
  written = [];
})

unfoldable pub lock_status_file : StatusManager → List Try → StatusManager × LockRun
lock_status_file mng tries =
    if mng.status_file_locked then (mng, acquired) else elim (file_lock tries) [
      | acquired ↦ (record mng { status_file_locked = true; status_held = true }, acquired)
      | failed e ↦ (mng, failed e)
      | waiting ↦ (mng, waiting)
    ]

-- `lockRunningFile`: the flag is set also when the lock was not placed.
unfoldable pub lock_running_file :
    StatusManager → Option Errno → StatusManager × Bool × Option Error
lock_running_file mng answer =
    if mng.running_file_locked
    then (mng, true, none)
    else (let (succ, err) = file_nb_lock answer in
        elim err [
          | some e ↦ (mng, false, some e)
          | none ↦ (
            record mng { running_file_locked = true; running_held = succ || mng.running_held },
            succ,
            none,
          )
        ])

-- `IsShimRunning`. `F_GETLK` does not see locks of the process itself.
unfoldable pub is_shim_running : StatusManager → GetLock → Bool × Option Error
is_shim_running mng answer =
    if mng.running_file_locked
    then (true, none)
    else (let (can_lock, err) = file_can_lock answer in (not can_lock, err))

-- The argument is the error of `F_UNLCK`.
unfoldable pub unlock_status_file : StatusManager → Option Error → StatusManager × Option Error
unlock_status_file mng answer =
    if mng.status_file_locked
    then (
      record mng { status_file_locked = false; status_held = is_some answer && mng.status_held },
      answer,
    )
    else (mng, none)

unfoldable pub unlock_running_file : StatusManager → Option Error → StatusManager × Option Error
unlock_running_file mng answer =
    if mng.running_file_locked
    then (
      record mng { running_file_locked = false; running_held = is_some answer && mng.running_held },
      answer,
    )
    else (mng, none)

unfoldable pub release_locks :
    StatusManager → Option Error → Option Error → StatusManager × Option Error
release_locks mng answer answer2 =
    let (mng1, err) = unlock_status_file mng answer in
    let (mng2, err2) = unlock_running_file mng1 answer2 in
    (mng2, elim err [ some e ↦ some e | none ↦ err2 ])

-- What the world answers to one operation.
pub record World : Type 0 where
  pub tries : List Try
  pub found : Read
  pub running : Option Errno
  pub probe : GetLock
  pub write_err : Option Error
  pub unlock_err : Option Error

-- `lockStatusFile` and then `rest`; an error of the lock is returned with `zero`. The deferred unlock
-- stands below the lock, so it does not run here.
abbrev pub with_status_lock :
    {A : Type 0} → StatusManager → World → (Error → A) → (StatusManager → Result A) → Result A
with_status_lock mng w on_err rest =
    let (mng1, run) = lock_status_file mng w.tries in
    elim run [ acquired ↦ rest mng1 | failed e ↦ returns mng1 (on_err e) | waiting ↦ blocks mng1 ]

-- The deferred unlock; its error is only logged.
abbrev pub unlocked : StatusManager → World → StatusManager
unlocked mng w = (unlock_status_file mng w.unlock_err).0

start_locked : StatusManager → World → Read → Result (ShimStatus × Option Error)
start_locked mng w (read_failed s e) = returns (unlocked mng w) (s, some e)
start_locked mng w (read s) =
    if s.disabled
    then returns (unlocked mng w) (s, some bundle_disabled)
    else (let (mng1, succ, err) = lock_running_file mng w.running in
        elim err [
          | some e ↦ returns (unlocked mng1 w) (s, some e)
          | none ↦
              if succ
              then returns mng1 (s, none)
              else returns (unlocked mng1 w) (s, some bundle_is_already_running)
        ])

unfoldable pub lock_for_start_shim : StatusManager → World → Result (ShimStatus × Option Error)
unfolding start_locked
lock_for_start_shim mng w =
    with_status_lock mng w (λ e. (no_status, some e)) (λ mng1. start_locked mng1 w w.found)

-- On success the status file stays locked.
unfoldable pub update_status : StatusManager → World → ShimStatus → Result (Option Error)
update_status mng w status =
    with_status_lock mng w (λ e. some e)
      (λ mng1. elim w.write_err [
        | some e ↦ returns (unlocked mng1 w) (some e)
        | none ↦ returns (record mng1 { written = status ∷ mng1.written }) none
      ])

cleanup_locked : StatusManager → World → Read → Result (ShimStatus × Bool × Option Error)
cleanup_locked mng w (read_failed s e) = returns (unlocked mng w) (s, false, some e)
cleanup_locked mng w (read s) =
    let (mng1, succ, err) = lock_running_file mng w.running in
    elim err [
      | some e ↦ returns (unlocked mng1 w) (s, false, some e)
      | none ↦
          if succ then returns mng1 (s, true, none) else returns (unlocked mng1 w) (s, false, none)
    ]

unfoldable pub lock_for_cleanup : StatusManager → World → Result (ShimStatus × Bool × Option Error)
unfolding cleanup_locked
lock_for_cleanup mng w =
    with_status_lock mng w (λ e. (no_status, false, some e)) (λ mng1. cleanup_locked mng1 w w.found)

task_manager_locked : StatusManager → World → Read → Result (ShimStatus × Bool × Option Error)
task_manager_locked mng w (read_failed s e) = returns (unlocked mng w) (s, false, some e)
task_manager_locked mng w (read s) =
    let (running, err) = is_shim_running mng w.probe in
    elim err [
      | some e ↦ returns (unlocked mng w) (s, running, some e)
      | none ↦ returns mng (s, running, none)
    ]

unfoldable pub lock_for_task_manager :
    StatusManager → World → Result (ShimStatus × Bool × Option Error)
unfolding task_manager_locked
lock_for_task_manager mng w =
    with_status_lock mng w (λ e. (no_status, false, some e))
      (λ mng1. task_manager_locked mng1 w w.found)

update_locked : StatusManager → World → Read → Result (ShimStatus × Option Error)
update_locked mng w (read_failed s e) = returns (unlocked mng w) (s, some e)
update_locked mng w (read s) = returns mng (s, none)

unfoldable pub lock_for_update_status : StatusManager → World → Result (ShimStatus × Option Error)
unfolding update_locked
lock_for_update_status mng w =
    with_status_lock mng w (λ e. (no_status, some e)) (λ mng1. update_locked mng1 w w.found)

get_locked : StatusManager → World → Read → Result (ShimStatus × Option Error)
get_locked mng w (read_failed s e) = returns (unlocked mng w) (s, some e)
get_locked mng w (read s) = returns (unlocked mng w) (s, none)

pub get_status : StatusManager → World → Result (ShimStatus × Option Error)
unfolding get_locked
get_status mng w =
    with_status_lock mng w (λ e. (no_status, some e)) (λ mng1. get_locked mng1 w w.found)
