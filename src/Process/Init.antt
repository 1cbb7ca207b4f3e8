-- ===== src/Process/Init.antt =====
-- process/init.go, process/init_state.go and process/deleted_state.go: the init process of a container,
-- its states, and how it is created and started; Init/Ops has the other methods. Each method runs under
-- the mutex of the process.
pub mod Ops
pub mod Lifecycle
use systemd_runtime.Common.{
  ℕ, ◌+◌, List, Option, none, some, Bool, true, false, if◌then◌else◌, is_some,
}
use systemd_runtime.Process.{
  StateName, Done, ok, panics, fails, IoWorld, Attached, Start, ◌then_do◌, prepare_io, attach,
}
use systemd_runtime.Process.Errors.{
  RunError, Error, cannot, deleted_not_found, invalid_transition, run_error, system,
  check_kill_error, is_gone,
}

pub data InitState : Type 0 where
  created created_checkpoint running paused stopped deleted : InitState

-- `waiters_released` says that `waitBlock` is closed; `terminal` and `stdin` are the fields of `stdio`.
pub record Init : Type 0 where
  pub state : InitState
  pub pausing : Bool
  pub status : ℕ
  pub exited : Option ℕ
  pub waiters_released : Bool
  pub attached : Attached
  pub io_closed : Bool
  pub terminal : Bool
  pub stdin : Bool

unfoldable pub new_init : (terminal stdin : Bool) → Init
new_init terminal stdin = record {
  state = created;
  pausing = false;
  status = 0;
  exited = none;
  waiters_released = false;
  attached = record { io = false; console = false; closers = 0; pid = 0 };
  io_closed = false;
  terminal = terminal;
  stdin = stdin;
}

-- The targets that the `transition` methods are called with.
pub data Target : Type 0 where
  to_running to_paused to_stopped to_deleted : Target

-- The `transition` methods; `none` is the error "invalid state transition".
unfoldable pub transition_from : InitState → Target → Option InitState
transition_from created to_running = some running
transition_from created to_stopped = some stopped
transition_from created to_deleted = some deleted
transition_from created_checkpoint to_running = some running
transition_from created_checkpoint to_stopped = some stopped
transition_from created_checkpoint to_deleted = some deleted
transition_from running to_stopped = some stopped
transition_from running to_paused = some paused
transition_from paused to_running = some running
transition_from paused to_stopped = some stopped
transition_from stopped to_deleted = some deleted
transition_from _ _ = none

abbrev pub transition : Init → Target → Init × Done
transition p target = elim (transition_from p.state target) [
  | some st ↦ (record p { state = st }, ok)
  | none ↦ (p, fails invalid_transition)
]

-- `runtimeError`: an error of runc, wrapped.
abbrev pub after_run : Option RunError → (Init × Done) → Init → Init × Done
after_run (some e) next p = (p, fails (run_error e))
after_run none next p = next

-- A chain of steps on the attached fields, and what follows if it succeeds.
abbrev pub attaching : Init → Start → (Init → Init × Done) → Init × Done
attaching p m next =
    let (a, err) = m p.attached in
    let q = record p { attached = a } in elim err [ some e ↦ (q, fails e) | none ↦ next q ]

-- The call of runc in a chain.
abbrev pub run_step : IoWorld → Start
run_step w s = (s, elim w.run_err [ some e ↦ some (run_error e) | none ↦ none ])

-- `Create`; `checkpoint` says that a checkpoint is given.
unfoldable pub create : Init → (terminal stdin checkpoint : Bool) → IoWorld → Init × Done
create p terminal stdin checkpoint w = attaching p (prepare_io terminal w) (λ q.
    if checkpoint
    then (record q { state = created_checkpoint }, ok)
    else attaching q (run_step w then_do attach terminal stdin w) (λ r. (r, ok)))

-- `Start` of a checkpointed state makes its own console socket and uses the pipes of `Create`.
abbrev pub restore_socket : Bool → IoWorld → Start
restore_socket true w = prepare_io true w
restore_socket false w = λ s. (s, none)

start_in : InitState → Init → IoWorld → Init × Done
start_in created p w = after_run w.run_err (transition p to_running) p
start_in created_checkpoint p w =
    attaching p (restore_socket p.terminal w then_do run_step w then_do attach p.terminal p.stdin w)
      (λ q. transition q to_running)
start_in _ p w = (p, fails cannot)

unfoldable pub start : Init → IoWorld → Init × Done
unfolding start_in
start p w = start_in p.state p w
