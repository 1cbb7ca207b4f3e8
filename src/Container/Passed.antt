-- ===== src/Container/Passed.antt =====
-- The methods of runc/container.go that only call a method of a process.
use systemd_runtime.Common.{ℕ, Option, if◌then◌else◌}
use systemd_runtime.Process.{Done, ok, panics, fails}
use systemd_runtime.Process.Errors
use systemd_runtime.Process.Init.Ops
use systemd_runtime.Process.Exec
use systemd_runtime.Container.{
  Container, Process, init_process, exec_process, End, done, failed, panicked, process_error,
  find_process, with_process,
}

-- How a call ends that leaves the process as it is.
abbrev pub ended_with : Container → Process → Done → Container × End
ended_with c p ok = (c, done p)
ended_with c p (fails e) = (c, failed (process_error e))
ended_with c p panics = (c, panicked)

-- The method `Resize` of a process, given the error of the console.
unfoldable pub resize_process : Process → Option Errors.Error → Done
resize_process (init_process p) err = if p.attached.console then Ops.done_of err else ok
resize_process (exec_process id e) err = Exec.resize e err

-- `ResizePty`
unfoldable pub resize_pty :
    Container → (id : ℕ) → (resize_err : Option Errors.Error) → Container × End
unfolding find_process resize_process
resize_pty c id err =
    with_process c (find_process c id) (λ p. ended_with c p (resize_process p err))

-- `CloseIO`; there is no error if the process has no stdin.
unfoldable pub close_io : Container → (id : ℕ) → (close_err : Option Errors.Error) → Container × End
unfolding find_process
close_io c id err = with_process c (find_process c id) (λ p. ended_with c p (Ops.done_of err))

-- `Checkpoint` and `Update`
unfoldable pub checkpoint : Container → Option Errors.Error → Container × End
checkpoint c err = ended_with c (init_process c.process) (Ops.checkpoint c.process err)

unfoldable pub update : Container → Option Errors.Error → Container × End
update c err = ended_with c (init_process c.process) (Ops.update c.process err)
