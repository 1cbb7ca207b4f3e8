-- ===== src/Status/Locks.antt =====
-- When the operations of common/status.go leave the status file locked.
use systemd_runtime.Common.{Option, none, true, false, not, is_some, ◌≡◌, arith}
use systemd_runtime.Flock.{Error}
use systemd_runtime.Status.{
  StatusManager, ShimStatus, World, Result, returns, blocks, lock_status_file, unlock_status_file,
  lock_running_file, is_shim_running, lock_for_start_shim, lock_for_cleanup, lock_for_task_manager,
  lock_for_update_status, get_status, update_status, release_locks, unlock_running_file,
}

-- The flag for the status file says whether the kernel holds the lock.
abbrev pub IsHonest : StatusManager → Type 0
IsHonest mng = mng.status_file_locked ≡ mng.status_held

-- The call returns with `P`, or it waits for the status lock with nothing changed.
abbrev pub Ends : {A : Type 0} → StatusManager → (StatusManager → A → Type 0) → Result A → Type 0
Ends mng P (returns mng' a) = P mng' a
Ends mng P (blocks mng') = mng' ≡ mng

abbrev pub StartProtocol : StatusManager → World → Type 0
StartProtocol mng w =
    Ends mng
      (λ mng' res.
        IsHonest mng'
        × (mng'.status_file_locked ≡ not (is_some res.1))
        × (res.1 ≡ none → res.0.disabled ≡ false))
      (lock_for_start_shim mng w)

-- `LockForStartShim` returns with the status file locked exactly if it returns no error; then the
-- returned status is not disabled. The flag is honest before and after. Unlocking is taken to succeed.
start_protocol :
    (mng : StatusManager) (w : World) → IsHonest mng → w.unlock_err ≡ none → StartProtocol mng w
unfolding lock_for_start_shim lock_status_file unlock_status_file lock_running_file
start_protocol mng w h u = ground arith

abbrev pub CleanupProtocol : StatusManager → World → Type 0
CleanupProtocol mng w =
    Ends mng
      (λ mng' res.
        IsHonest mng' × (mng'.status_file_locked ≡ res.1) × (res.1 ≡ true → res.2 ≡ none))
      (lock_for_cleanup mng w)

-- `LockForCleanup` returns with the status file locked exactly if it says so, and then without an
-- error; the flag stays honest.
cleanup_protocol :
    (mng : StatusManager) (w : World) → IsHonest mng → w.unlock_err ≡ none → CleanupProtocol mng w
unfolding lock_for_cleanup lock_status_file unlock_status_file lock_running_file
cleanup_protocol mng w h u = ground arith

abbrev pub StatusProtocol : StatusManager → World → ShimStatus → Type 0
StatusProtocol mng w status =
    Ends mng (λ mng' res. IsHonest mng' × (mng'.status_file_locked ≡ not (is_some res.2)))
      (lock_for_task_manager mng w)
    × Ends mng (λ mng' res. IsHonest mng' × (mng'.status_file_locked ≡ not (is_some res.1)))
        (lock_for_update_status mng w)
    × Ends mng (λ mng' err. IsHonest mng' × (mng'.status_file_locked ≡ not (is_some err)))
        (update_status mng w status)
    × Ends mng (λ mng' res. IsHonest mng' × (mng'.status_file_locked ≡ false)) (get_status mng w)

-- `LockForTaskManager`, `LockForUpdateStatus` and `UpdateStatus` return with the status file locked
-- exactly if they return no error, and `GetStatus` always with it unlocked; the flag stays honest.
status_protocol :
    (mng : StatusManager) (w : World) (status : ShimStatus)
    → IsHonest mng
    → w.unlock_err ≡ none
    → StatusProtocol mng w status
unfolding lock_for_task_manager lock_for_update_status update_status get_status lock_status_file
    unlock_status_file is_shim_running
status_protocol mng w status h u = (ground arith, ground arith, ground arith, ground arith)

-- `ReleaseLocks` clears both flags; if both unlocks succeed the process holds neither lock that it
-- had a flag for, and no error is returned.
release_locks_lem :
    (mng : StatusManager) (a b : Option Error)
    → let (mng', err) = release_locks mng a b in
      (mng'.status_file_locked ≡ false)
      × (mng'.running_file_locked ≡ false)
      × (a ≡ none
          → b ≡ none
          → (err ≡ none)
            × (mng.status_file_locked ≡ true → mng'.status_held ≡ false)
            × (mng.running_file_locked ≡ true → mng'.running_held ≡ false))
unfolding release_locks unlock_status_file unlock_running_file
release_locks_lem mng a b = ground arith

-- On a manager whose flag of the status file says whether the lock is held, if unlocking succeeds:
-- each operation that locks the status file waits for the lock with nothing changed, or it returns with
-- the file locked exactly if it says so, and the flag stays honest. `LockForStartShim`, `LockForTaskManager`, `LockForUpdateStatus` and `UpdateStatus` say so
-- by no error, `LockForCleanup` by its flag, and then without an error; `GetStatus` returns with it
-- unlocked. A status that `LockForStartShim` returns without an error is not disabled.
pub lock_protocols :
    (mng : StatusManager) (w : World) (status : ShimStatus)
    → IsHonest mng
    → w.unlock_err ≡ none
    → StartProtocol mng w × CleanupProtocol mng w × StatusProtocol mng w status
lock_protocols mng w status h u =
    (start_protocol mng w h u, cleanup_protocol mng w h u, status_protocol mng w status h u)
