-- ===== src/Rpc/Client.antt =====
-- task/task_service.go: containerd's view of a task whose shim runs, and `connect` of task/util.go.
use systemd_runtime.Common.{ℕ, List, Option, Bool, true, if◌then◌else◌}
use systemd_runtime.Status.{Exit}
use systemd_runtime.Rpc.{
  Error, Reply, Codes, failed, map_error, map_reply, not_implemented, not_found, closed, invalid,
  Target, StateResponse, State, RuntimeStatus, TaskStatus, unknown, no_status, WaitResponse,
  ConnectResponse, TaskService, AnyOptions,
}

-- `Service` of the package task.
pub record Client : Type 0 where
  pub task_pid : ℕ
  pub id : ℕ

-- The fields of `runtime.ExecOpts`.
pub record ExecOpts : Type 0 where
  pub stdin : ℕ
  pub stdout : ℕ
  pub stderr : ℕ
  pub terminal : Bool
  pub spec : ℕ

-- The switch of `State`.
unfoldable pub status_of : TaskStatus → RuntimeStatus
status_of TaskStatus.created = RuntimeStatus.created
status_of TaskStatus.running = RuntimeStatus.running
status_of TaskStatus.stopped = RuntimeStatus.stopped
status_of TaskStatus.paused = RuntimeStatus.paused
status_of TaskStatus.pausing = RuntimeStatus.pausing
status_of unknown = no_status

abbrev pub target : Client → (exec_id : ℕ) → Target
target c exec_id = record { id = c.id; exec_id = exec_id }

-- The error of `State`.
abbrev pub state_error : Codes → Error → Error
state_error k closed = not_found
state_error k e = k.from_grpc e

-- The error of `Delete`.
abbrev pub delete_error : Codes → Error → Error
delete_error k closed = closed
delete_error k e = k.from_grpc e

abbrev pub task_state : StateResponse → State
task_state r = record { status = status_of r.status; described = record (r.described) { pid = 0 } }

module _ {S : Type 0} (k : Codes) (svc : TaskService S) where
  abbrev pub from : {A : Type 0} → S × Reply A → S × Reply A
  from (s, r) = (s, map_error k.from_grpc r)

  abbrev pub state_reply : S × Reply StateResponse → S × Reply State
  state_reply (s, r) = (s, map_reply task_state (map_error (state_error k) r))

  unfoldable pub state : Client → S → S × Reply State
  state c s = state_reply (svc.state s (target c 0))

  unfoldable pub kill : Client → S → (sig : ℕ) → (all : Bool) → S × Reply (Unit {0})
  kill c s sig all = from (svc.kill s (record { target = target c 0; signal = sig; all = all }))

  unfoldable pub resize_pty : Client → S → (width height : ℕ) → S × Reply (Unit {0})
  resize_pty c s width height =
      from (svc.resize_pty s (record { target = target c 0; width = width; height = height }))

  unfoldable pub close_io : Client → S → S × Reply (Unit {0})
  close_io c s = from (svc.close_io s (record { target = target c 0; stdin = true }))

  unfoldable pub start : Client → S → S × Reply (Unit {0})
  start c s = (s, failed not_implemented)

  abbrev pub exit_reply : ℕ → S × Reply WaitResponse → S × Reply Exit
  exit_reply pid (s, r) = (
    s,
    map_reply (λ w. record { pid = pid; status = w.exit_status; timestamp = w.exited_at })
        (map_error k.from_grpc r),
  )

  unfoldable pub wait : Client → S → S × Reply Exit
  wait c s = exit_reply c.task_pid (svc.wait s (target c 0))

  abbrev pub delete_reply : S × Reply Exit → S × Reply Exit
  delete_reply (s, r) = (s, map_error (delete_error k) r)

  unfoldable pub delete : Client → S → S × Reply Exit
  delete c s = delete_reply (svc.delete s (target c 0))

  -- `Exec`, without the process that it makes.
  unfoldable pub exec : Client → S → (id : ℕ) → ExecOpts → S × Reply (Unit {0})
  exec c s id o =
      if k.valid_id id
      then from (
          svc.exec s (record {
            id = c.id;
            exec_id = id;
            terminal = o.terminal;
            stdin = o.stdin;
            stdout = o.stdout;
            stderr = o.stderr;
            spec = o.spec;
          }))
      else (s, failed (invalid id))

  unfoldable pub pids : Client → S → S × Reply (List (ℕ × Option ℕ))
  pids c s = from (svc.pids s c.id)

  unfoldable pub checkpoint : Client → S → (path : ℕ) → Option AnyOptions → S × Reply (Unit {0})
  checkpoint c s path opts =
      from (svc.checkpoint s (record { id = c.id; path = path; options = opts }))

  unfoldable pub update : Client → S → (resources : ℕ) → S × Reply (Unit {0})
  update c s resources = from (svc.update s (record { id = c.id; resources = resources }))

  unfoldable pub stats : Client → S → S × Reply ℕ
  stats c s = from (svc.stats s c.id)

  abbrev pub pid_reply : S × Reply ConnectResponse → S × Reply ℕ
  pid_reply (s, r) = (s, map_reply (λ x. x.task_pid) r)

  unfoldable pub connect : (id : ℕ) → S → S × Reply ℕ
  connect id s = pid_reply (svc.connect s id)
