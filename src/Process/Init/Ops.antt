-- ===== src/Process/Init/Ops.antt =====
-- process/init.go, process/init_state.go and process/deleted_state.go: deleting, pausing, killing and the
-- exit of the init process.
use systemd_runtime.Common.{ℕ, Option, none, some, true, false, if◌then◌else◌, ◌||◌}
use systemd_runtime.Process.{StateName, Done, ok, panics, fails}
use systemd_runtime.Process.Errors.{
  RunError, Error, cannot, deleted_not_found, run_error, system, check_kill_error, is_gone,
}
use systemd_runtime.Process.Init.{
  InitState, created, created_checkpoint, running, paused, stopped, deleted, Init, to_running,
  to_paused, to_stopped, to_deleted, transition_from, transition, after_run,
}

-- The lower-case `delete`: its error. Closers and pipes are closed; an error of the unmount is
-- returned if there is no other.
delete_err : Option RunError → (unmount_err : Option ℕ) → Option Error
unfolding is_gone
delete_err none none = none
delete_err none (some u) = some (system u)
delete_err (some e) none = if is_gone e then none else some (run_error e)
delete_err (some e) (some u) = if is_gone e then some (system u) else some (run_error e)

delete_now : Init → Option RunError → (unmount_err : Option ℕ) → Init × Done
unfolding delete_err
delete_now p run unmount_err =
    let q = record p { io_closed = p.attached.io || p.io_closed } in
    elim (delete_err run unmount_err) [ some e ↦ (q, fails e) | none ↦ transition q to_deleted ]

delete_in : InitState → Init → Option RunError → Option ℕ → Init × Done
unfolding delete_now
delete_in created p run u = delete_now p run u
delete_in created_checkpoint p run u = delete_now p run u
delete_in stopped p run u = delete_now p run u
delete_in deleted p run u = (p, fails deleted_not_found)
delete_in _ p run u = (p, fails cannot)

unfoldable pub delete : Init → Option RunError → (unmount_err : Option ℕ) → Init × Done
unfolding delete_in
delete p run u = delete_in p.state p run u

-- While runc pauses the container, `pausing` is set.
abbrev pub while_pausing : Init → Init
while_pausing p = record p { pausing = true }

pause_in : InitState → Init → Option RunError → Init × Done
pause_in running p run =
    let (q, d) = after_run run (transition (while_pausing p) to_paused) (while_pausing p) in
    (record q { pausing = false }, d)
pause_in _ p run = (p, fails cannot)

unfoldable pub pause : Init → Option RunError → Init × Done
unfolding pause_in
pause p run = pause_in p.state p run

resume_in : InitState → Init → Option RunError → Init × Done
resume_in paused p run = after_run run (transition p to_running) p
resume_in _ p run = (p, fails cannot)

unfoldable pub resume : Init → Option RunError → Init × Done
unfolding resume_in
resume p run = resume_in p.state p run

abbrev pub done_of : Option Error → Done
done_of none = ok
done_of (some e) = fails e

kill_in : InitState → Option RunError → Done
kill_in deleted run = fails deleted_not_found
kill_in _ run = done_of (check_kill_error run)

-- `Kill` changes no field.
unfoldable pub kill : Init → Option RunError → Done
unfolding kill_in
kill p run = kill_in p.state run

-- `KillAll`, in every state.
unfoldable pub kill_all : Init → Option RunError → Done
kill_all p none = ok
kill_all p (some e) = fails (run_error e)

-- `Update`, `Checkpoint` and `Exec`, with the error of their work in the states that allow them.
unfoldable pub update : Init → Option Error → Done
update p err = elim p.state [ stopped ↦ fails cannot | deleted ↦ fails cannot | _ ↦ done_of err ]

unfoldable pub checkpoint : Init → Option Error → Done
checkpoint p err = elim p.state [ running ↦ done_of err | paused ↦ done_of err | _ ↦ fails cannot ]

unfoldable pub exec : Init → Option Error → Done
exec p err = elim p.state [ created ↦ done_of err | running ↦ done_of err | _ ↦ fails cannot ]

-- The lower-case `setExited`: closing `waitBlock` a second time panics.
set_exited_now : Init → (status now : ℕ) → Init × Done
set_exited_now p status now = (
  record p { status = status; exited = some now; waiters_released = true },
  if p.waiters_released then panics else ok,
)

exit_then_stop : Init → (status now : ℕ) → Init × Done
unfolding set_exited_now
exit_then_stop p status now =
    let (q, d) = set_exited_now p status now in
    elim d [
      | ok ↦ elim (transition_from q.state to_stopped) [
        | some st ↦ (record q { state = st }, ok)
        | none ↦ (q, panics)
      ]
      | other ↦ (q, other)
    ]

set_exited_in : InitState → Init → (status now : ℕ) → Init × Done
unfolding exit_then_stop
set_exited_in stopped p status now = (p, ok)
set_exited_in deleted p status now = (p, ok)
set_exited_in _ p status now = exit_then_stop p status now

-- `SetExited`. In the paused state runc is also told to resume; its error is only logged.
unfoldable pub set_exited : Init → (status now : ℕ) → Init × Done
unfolding set_exited_in
set_exited p status now = set_exited_in p.state p status now

status_in : InitState → StateName
status_in created = StateName.created
status_in created_checkpoint = StateName.created
status_in running = StateName.running
status_in paused = StateName.paused
status_in stopped = StateName.stopped
status_in deleted = StateName.stopped

unfoldable pub status_of : Init → StateName
unfolding status_in
status_of p = if p.pausing then StateName.pausing else status_in p.state
