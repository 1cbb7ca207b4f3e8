-- ===== src/Shim/Exits.antt =====
-- shim/shim.go: what the shim does when a process exits, and the deletion of its container.
use systemd_runtime.Common.{
  ℕ, ◌+◌, List, [], ◌∷◌, Option, none, some, Bool, true, false, ◌==◌, if◌then◌else◌, length,
}
use systemd_runtime.Process
use systemd_runtime.Process.Errors.{RunError}
use systemd_runtime.Status.{
  Exit, ShimStatus, StatusManager, World, Result, lock_for_update_status, update_status, unlocked,
}
use systemd_runtime.Status
use systemd_runtime.Flock
use systemd_runtime.Container
use systemd_runtime.Container.{Container, Process, pid_of, has_pid, all, put_process, set_exited}
use systemd_runtime.Shim.{
  Service, Event, Ended, returns, refused, panics, blocks, put, sending, closing, id_of, exit_of,
  perform_delete, task_exit, task_paused,
}

-- `goRunc.Exit`, with the time that `SetExited` reads.
pub record Exited : Type 0 where
  pub pid : ℕ
  pub status : ℕ
  pub now : ℕ

-- The event of a process that has exited.
unfoldable pub exit_event : Service → Container → Process → Exited → Event
exit_event s c p e =
    if e.pid == Container.pid c
    then if s.disabled then task_exit (id_of p) (record (exit_of p) { pid = 0 }) else task_paused
    else task_exit (id_of p) (exit_of p)

-- `checkProcess`: whether the process is the one that exited. The error of `KillAll` is only logged.
unfoldable pub check_process : Service → Container → Process → Exited → Service × Ended Bool
unfolding exit_event
check_process s c p e =
    if pid_of p == e.pid
    then (let (q, d) = set_exited p e.status e.now in
        elim d [
          | Process.panics ↦ (s, panics)
          | _ ↦ sending (put s (put_process c q)) (exit_event s c q e) (λ t. (t, returns true))
        ])
    else (s, returns false)

-- The container that a round of the loop leaves.
abbrev pub container_or : Container → Option Container → Container
container_or c none = c
container_or c (some c') = c'

abbrev pub after_check :
    Service × Ended Bool → (living : ℕ) → (Service → ℕ → Service × Ended ℕ) → Service × Ended ℕ
after_check (s, returns true) living next = next s living
after_check (s, returns false) living next = next s (living + 1)
after_check (s, refused x) living next = (s, refused x)
after_check (s, panics) living next = (s, panics)
after_check (s, blocks) living next = (s, blocks)

-- The loop of `checkProcesses`: the number of living processes.
unfoldable pub check_all :
    Service → Container → List Process → Exited → (living : ℕ) → Service × Ended ℕ
check_all s c [] e living = (s, returns living)
check_all s c (p ∷ ps) e living =
    after_check (check_process s c p e) living
      (λ t living'. check_all t (container_or c t.container) ps e living')

-- Whether `checkProcesses` starts `cleanup`.
abbrev pub then_cleanup : Service × Ended ℕ → Service × Ended Bool
then_cleanup (s, returns living) = (s, returns (if s.started then living == 0 else false))
then_cleanup (s, refused x) = (s, refused x)
then_cleanup (s, panics) = (s, panics)
then_cleanup (s, blocks) = (s, blocks)

-- `checkProcesses`
unfoldable pub check_processes : Service → Exited → Service × Ended Bool
unfolding check_all
check_processes s e = elim s.container [
  | none ↦ (s, returns false)
  | some c ↦
      then_cleanup
        (if has_pid c e.pid then check_all s c (all c) e 0 else (s, returns (length (all c))))
]

-- `writeExitStatus` behind the lock: its error, if it returns.
abbrev pub exit_written :
    World → Exit → Result (ShimStatus × Option Flock.Error) → Result (Option Flock.Error)
exit_written w exit (Status.blocks mng) = Status.blocks mng
exit_written w exit (Status.returns mng (status, some e)) = Status.returns mng (some e)
exit_written w exit (Status.returns mng (status, none)) =
    elim (update_status mng w (record status { exit = some exit })) [
      | Status.blocks mng' ↦ Status.blocks mng'
      | Status.returns mng' err ↦ Status.returns (unlocked mng' w) err
    ]

unfoldable pub write_exit_status : Service → Exit → World → Result (Option Flock.Error)
write_exit_status s exit w = exit_written w exit (lock_for_update_status s.mng w)

-- `cleanup` behind the deletion; the error of the write is only logged. The container's lock is
-- given back behind the close.
abbrev pub cleaned : Service → Exit → Result (Option Flock.Error) → Service × Ended (Unit {0})
cleaned s exit (Status.blocks mng) = (record s { exit_status = some exit; mng = mng }, blocks)
cleaned s exit (Status.returns mng err) =
    let t = record s { exit_status = some exit; mng = mng; container = none; deleted = true } in
    if t.disabled then (t, returns tt) else closing t (λ u. (u, returns tt))

abbrev pub after_delete : Service × Ended Exit → World → Service × Ended (Unit {0})
after_delete (s, returns exit) w = cleaned s exit (write_exit_status s exit w)
after_delete (s, refused e) w = (s, returns tt)
after_delete (s, panics) w = (s, panics)
after_delete (s, blocks) w = (s, blocks)

-- `cleanup`
unfoldable pub cleanup :
    Service → Option RunError → (unmount_err : Option ℕ) → World → Service × Ended (Unit {0})
cleanup s run u w = elim s.container [
  | none ↦ (s, returns tt)
  | some c ↦ after_delete (perform_delete s c 0 run u) w
]
