-- ===== src/Task/State.antt =====
-- `Task.State` of task/task.go.
use systemd_runtime.Common.{ℕ, Option, none, false, ◌≡◌, ◌≢◌, arith}
use systemd_runtime.Flock.{Error}
use systemd_runtime.Status.{World}
use systemd_runtime.Status.Locks.{IsHonest}
use systemd_runtime.Bundle.Disabling.{shim_status_lem}
use systemd_runtime.Task.{Task, state, panicked}

-- `State` never follows a nil exit, whatever the files hold and the kernel answers; if it reads the
-- status itself, it leaves the status file unlocked. The flag for the status file is honest before,
-- and unlocking succeeds.
state_safe :
    (t : Task) (w : World) (now : ℕ) (opts_err : Option Error)
    → IsHonest t.mng
    → t.mng.status_file_locked ≡ false
    → w.unlock_err ≡ none
    → let (t', end) = state t w now opts_err in
      (end ≢ panicked) × (t'.mng.status_file_locked ≡ false)
unfolding state
state_safe t w now opts_err h f u = grind (arith, shim_status_lem t.mng w now h u)
