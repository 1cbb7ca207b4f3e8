-- ===== src/Status/Start.antt =====
-- `lockRunningFile` of common/status.go sets its flag also when another process has the lock, and
-- what comes of that.
use systemd_runtime.Common.{none, some, true, false, ◌≡◌, arith}
use systemd_runtime.Flock.{eagain, bundle_is_already_running, file_nb_lock, file_lock, acquired}
use systemd_runtime.Status.{
  StatusManager, ShimStatus, World, returns, read, lock_status_file, unlock_status_file,
  lock_running_file, lock_for_start_shim,
}
use systemd_runtime.Status.Locks.{Ends}

-- On a manager that has not tried the lock of the running shim before, `LockForStartShim` without an
-- error holds that lock, and `ErrBundleIsAlreadyRunning` says that it does not.
first_start :
    (mng : StatusManager) (w : World)
    → mng.running_file_locked ≡ false
    → mng.running_held ≡ false
    → Ends mng
        (λ mng' res.
          (res.1 ≡ none → mng'.running_held ≡ true)
          × (res.1 ≡ some bundle_is_already_running → mng'.running_held ≡ false))
        (lock_for_start_shim mng w)
unfolding lock_for_start_shim lock_status_file unlock_status_file lock_running_file file_nb_lock
first_start mng w f h = ground arith

-- A bundle that is not disabled is found, and the lock on the status file is had at once or after
-- waiting.
pub record Finds (w : World) (status : ShimStatus) : Type 0 where
  pub lockable : file_lock w.tries ≡ acquired
  pub status_read : w.found ≡ read status
  pub enabled : status.disabled ≡ false
  pub unlockable : w.unlock_err ≡ none

-- Another shim is running (`EAGAIN`), and a bundle that is not disabled is found both times, by a
-- manager that has no lock before. The first `LockForStartShim` says that the bundle is running; a
-- second one on the same manager returns without an error, whatever the kernel answers, and the
-- process does not hold the lock of the running shim.
second_start_unlocked :
    (mng : StatusManager) (w1 w2 : World) (s1 s2 : ShimStatus)
    → mng.status_file_locked ≡ false
    → mng.running_file_locked ≡ false
    → mng.running_held ≡ false
    → Finds w1 s1
    → Finds w2 s2
    → w1.running ≡ some eagain
    → (mng1 mng2 : StatusManager) × (lock_for_start_shim mng w1
        ≡ returns mng1 (s1, some bundle_is_already_running))
      × (lock_for_start_shim mng1 w2 ≡ returns mng2 (s2, none))
      × (mng2.running_held ≡ false)
unfolding lock_for_start_shim lock_status_file unlock_status_file lock_running_file file_nb_lock
second_start_unlocked mng w1 w2 s1 s2 a b c f1 f2 e = (
  record mng { running_file_locked = true; status_held = false },
  record mng { status_file_locked = true; running_file_locked = true; status_held = true },
  ground arith,
  ground arith,
  c,
)
