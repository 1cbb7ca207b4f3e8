-- ===== src/Process/Exec.antt =====
-- process/exec.go, process/exec_state.go and process/deleted_state.go: a process that is executed in a
-- container, and its states.
pub mod Lifecycle
use systemd_runtime.Common.{
  ℕ, ◌+◌, Option, none, some, Bool, true, false, if◌then◌else◌, ◌||◌, ◌==◌, is_some,
}
use systemd_runtime.Process.{
  StateName, Done, ok, panics, fails, IoWorld, Attached, Start, ◌then_do◌, prepare_io, attach,
}
use systemd_runtime.Process.Errors.{
  RunError, Error, cannot, deleted_not_found, not_created, process_finished, run_error,
  check_kill_error,
}

pub data ExecState : Type 0 where
  created running stopped deleted : ExecState

-- `waiters_released` says that `waitBlock` is closed; the pid is in `attached`.
pub record ExecProcess : Type 0 where
  pub state : ExecState
  pub status : ℕ
  pub exited : Option ℕ
  pub waiters_released : Bool
  pub attached : Attached
  pub io_closed : Bool
  pub terminal : Bool
  pub stdin : Bool

-- `Init.exec` makes it.
unfoldable pub new_exec : (terminal stdin : Bool) → ExecProcess
new_exec terminal stdin = record {
  state = created;
  status = 0;
  exited = none;
  waiters_released = false;
  attached = record { io = false; console = false; closers = 0; pid = 0 };
  io_closed = false;
  terminal = terminal;
  stdin = stdin;
}

-- `close(e.waitBlock)`, and what follows; a second close panics.
abbrev pub release : ExecProcess → (ExecProcess → ExecProcess × Done) → ExecProcess × Done
release e next =
    if e.waiters_released then (e, panics) else next (record e { waiters_released = true })

-- `start` behind the call of runc, and the transition.
start_attached : ExecProcess → IoWorld → ExecProcess × Done
start_attached e w =
    let (a, err) = attach e.terminal e.stdin w e.attached in
    let q = record e { attached = a } in
    elim err [ some x ↦ (q, fails x) | none ↦ (record q { state = running }, ok) ]

-- `runtime.Exec`: on its error the waiters are released.
start_run : ExecProcess → IoWorld → ExecProcess × Done
unfolding start_attached
start_run e w = elim w.run_err [
  | some x ↦ release e (λ q. (q, fails (run_error x)))
  | none ↦ start_attached e w
]

start_created : ExecProcess → IoWorld → ExecProcess × Done
unfolding start_run
start_created e w =
    let (a, err) = prepare_io e.terminal w e.attached in
    let q = record e { attached = a } in elim err [ some x ↦ (q, fails x) | none ↦ start_run q w ]

start_in : ExecState → ExecProcess → IoWorld → ExecProcess × Done
unfolding start_created
start_in created e w = start_created e w
start_in _ e w = (e, fails cannot)

unfoldable pub start : ExecProcess → IoWorld → ExecProcess × Done
unfolding start_in
start e w = start_in e.state e w

-- The lower-case `delete` returns no error.
delete_now : ExecProcess → ExecProcess × Done
delete_now e = (record e { io_closed = e.attached.io || e.io_closed; state = deleted }, ok)

delete_in : ExecState → ExecProcess → ExecProcess × Done
unfolding delete_now
delete_in created e = delete_now e
delete_in running e = (e, fails cannot)
delete_in stopped e = delete_now e
delete_in deleted e = (e, fails deleted_not_found)

unfoldable pub delete : ExecProcess → ExecProcess × Done
unfolding delete_in
delete e = delete_in e.state e

-- The lower-case `kill`; `kill_err` is the error of `unix.Kill`. `checkKillError` never makes an error
-- nil.
kill_pid : ExecProcess → Option RunError → Done
kill_pid e kill_err =
    if e.attached.pid == 0
    then fails not_created
    else if is_some e.exited
    then fails process_finished
    else elim (check_kill_error kill_err) [ some x ↦ fails x | none ↦ ok ]

kill_in : ExecState → ExecProcess → Option RunError → Done
unfolding kill_pid
kill_in deleted e kill_err = fails deleted_not_found
kill_in _ e kill_err = kill_pid e kill_err

unfoldable pub kill : ExecProcess → Option RunError → Done
unfolding kill_in
kill e kill_err = kill_in e.state e kill_err

-- `Resize`; `resize_err` is the error of the console.
resize_console : ExecProcess → Option Error → Done
resize_console e resize_err =
    if e.attached.console then elim resize_err [ some x ↦ fails x | none ↦ ok ] else ok

unfoldable pub resize : ExecProcess → Option Error → Done
unfolding resize_console
resize e resize_err = elim e.state [
  | created ↦ resize_console e resize_err
  | running ↦ resize_console e resize_err
  | _ ↦ fails cannot
]

exit_then_stop : ExecProcess → (status now : ℕ) → ExecProcess × Done
exit_then_stop e status now =
    release (record e { status = status; exited = some now })
      (λ q. (record q { state = stopped }, ok))

set_exited_in : ExecState → ExecProcess → (status now : ℕ) → ExecProcess × Done
unfolding exit_then_stop
set_exited_in created e status now = exit_then_stop e status now
set_exited_in running e status now = exit_then_stop e status now
set_exited_in _ e status now = (e, ok)

unfoldable pub set_exited : ExecProcess → (status now : ℕ) → ExecProcess × Done
unfolding set_exited_in
set_exited e status now = set_exited_in e.state e status now

own_status : ExecState → StateName
own_status created = StateName.created
own_status running = StateName.running
own_status stopped = StateName.stopped
own_status deleted = StateName.stopped

-- `Status`, given that of the init process.
unfoldable pub status_of : ExecProcess → (parent : StateName) → StateName
unfolding own_status
status_of e parent = elim parent [
  | StateName.paused ↦ StateName.paused
  | StateName.pausing ↦ StateName.pausing
  | _ ↦ own_status e.state
]
