-- ===== src/Shim.antt =====
-- shim/service.go, shim/sender.go and the state of shim/shim.go: the service of a shim. Each call is one
-- step, as it holds the container's lock; Shim/Waiting says what becomes of that lock. Shim/Exits has
-- the exits of processes, Shim/Boot the start of the shim.
pub mod Calls
pub mod Exits
pub mod Boot
pub mod Releases
pub mod Locks
pub mod Ends
pub mod Events
pub mod Waiting
mod Examples
use systemd_runtime.Common.{
  ℕ, ◌+◌, ◌%◌, ◌^◌, List, [], ◌∷◌, ◌++◌, Option, none, some, Bool, true, false, ◌==◌, ltb,
  if◌then◌else◌,
}
use systemd_runtime.Process.Errors.{RunError}
use systemd_runtime.Status.{Exit, StatusManager}
use systemd_runtime.Flock
use systemd_runtime.Holder.{HolderError, container_deleted, container_not_created}
use systemd_runtime.Container
use systemd_runtime.Container.{
  Container, Process, init_process, exec_process, pid_of, End, done, failed, panicked,
}

pub data Event : Type 0 where
  task_create task_start task_paused task_resumed : Event
  exec_added : (id : ℕ) → Event
  exec_started : (id pid : ℕ) → Event
  task_exit : (id : ℕ) → Exit → Event

-- `container` and `deleted` are those of the holder; `events` has what was sent to the channel of the
-- sender, and `closes` counts the calls of `close` on it.
pub record Service : Type 0 where
  pub container : Option Container
  pub deleted : Bool
  pub started : Bool
  pub disabled : Bool
  pub first_started : Bool
  pub exit_status : Option Exit
  pub events : List Event
  pub closes : ℕ
  pub mng : StatusManager

pub data Error : Type 0 where
  holder_error : HolderError → Error
  container_error : Container.Error → Error
  status_error : Flock.Error → Error
  supplier_error : ℕ → Error

-- How a call ends; `panics` stands also for a send on a closed channel, and `blocks` for a wait for the
-- lock of the status file.
pub data Ended (A : Type 0) : Type 0 where
  returns : A → Ended A
  refused : Error → Ended A
  panics blocks : Ended A

-- `NewShimService`
unfoldable pub new_service : StatusManager → Service
new_service mng = record {
  container = none;
  deleted = false;
  started = false;
  disabled = false;
  first_started = false;
  exit_status = none;
  events = [];
  closes = 0;
  mng = mng;
}

abbrev pub missing : Service → Error
missing s = if s.deleted then holder_error container_deleted else holder_error container_not_created

-- `GetLockedContainer` at the head of a call.
abbrev pub with_container :
    {A : Type 0} → Service → Option Container → (Container → Service × Ended A) → Service × Ended A
with_container s none next = (s, refused (missing s))
with_container s (some c) next = next c

abbrev pub put : Service → Container → Service
put s c = record s { container = some c }

-- `send`
abbrev pub sending :
    {A : Type 0} → Service → Event → (Service → Service × Ended A) → Service × Ended A
sending s e next =
    if ltb 0 s.closes then (s, panics) else next (record s { events = s.events ++ (e ∷ []) })

-- `close` of the service closes the channel of the sender.
abbrev pub closing : {A : Type 0} → Service → (Service → Service × Ended A) → Service × Ended A
closing s next = if ltb 0 s.closes then (s, panics) else next (record s { closes = s.closes + 1 })

-- What a method of the container leaves.
abbrev pub after :
    {A : Type 0}
    → Service
    → Container × End
    → (Service → Process → Service × Ended A)
    → Service × Ended A
after s (c, done p) next = next (put s c) p
after s (c, failed e) next = (put s c, refused (container_error e))
after s (c, panicked) next = (put s c, panics)

abbrev pub id_of : Process → ℕ
id_of (init_process p) = 0
id_of (exec_process id e) = id

-- `ExitedAt`, the zero time before the exit.
abbrev pub or_zero : Option ℕ → ℕ
or_zero none = 0
or_zero (some t) = t

abbrev pub uint32 : ℕ → ℕ
uint32 n = n % 2 ^ 32

abbrev pub exit_of : Process → Exit
exit_of (init_process p) = record {
  pid = uint32 p.attached.pid;
  status = uint32 p.status;
  timestamp = or_zero p.exited;
}
exit_of (exec_process id e) = record {
  pid = uint32 e.attached.pid;
  status = uint32 e.status;
  timestamp = or_zero e.exited;
}

-- `performDelete`
unfoldable pub perform_delete :
    Service → Container → (id : ℕ) → Option RunError → Option ℕ → Service × Ended Exit
perform_delete s c id run u =
    after s (Container.delete c id run u) (λ t p. (t, returns (exit_of p)))
