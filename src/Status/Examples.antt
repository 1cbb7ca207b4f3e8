-- ===== src/Status/Examples.antt =====
-- Runs of the status manager of common/status.go.
use systemd_runtime.Common.{[], ◌∷◌, some, none, true, false, refl}
use systemd_runtime.Flock.{eagain, unlocked, locked_elsewhere, file_lock}
use systemd_runtime.Status.{StatusManager, ShimStatus, World, read, no_status}
use systemd_runtime.Status.Locks.{StartProtocol, CleanupProtocol, StatusProtocol, lock_protocols}
use systemd_runtime.Status.Start.{Finds}

abbrev fresh : StatusManager
fresh = record {
  status_file_locked = false;
  running_file_locked = false;
  status_held = false;
  running_held = false;
  written = [];
}

abbrev created_status : ShimStatus
created_status = record no_status { pid = 42; created = true }

-- The status lock is had in the second round; another shim runs.
abbrev busy : World
busy = record {
  tries =
      record { answer = some eagain; done = false } ∷ (record { answer = none; done = false } ∷ []);
  found = read created_status;
  running = some eagain;
  probe = locked_elsewhere;
  write_err = none;
  unlock_err = none;
}

abbrev idle : World
idle = record busy { running = none; probe = unlocked }

lock_protocols_example :
    StartProtocol fresh idle × CleanupProtocol fresh idle × StatusProtocol fresh idle created_status
lock_protocols_example = lock_protocols fresh idle created_status refl refl

busy-Finds : Finds busy created_status
unfolding file_lock
busy-Finds = record { lockable = refl; status_read = refl; enabled = refl; unlockable = refl }
