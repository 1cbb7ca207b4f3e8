-- ===== src/Rpc/Service.antt =====
-- The service of shim/service.go behind the interface `ShimService`.
use systemd_runtime.Container.{Cgroup}
use systemd_runtime.Common.{ℕ, List, Option, none, some, Bool, false, not, ◌==◌, if◌then◌else◌}
use systemd_runtime.Process.{StateName, IoWorld}
use systemd_runtime.Process.Errors.{RunError}
use systemd_runtime.Process.Errors
use systemd_runtime.Status.{Exit}
use systemd_runtime.Shim
use systemd_runtime.Shim.{Service, Ended, returns, refused, panics, blocks}
use systemd_runtime.Shim.Calls
use systemd_runtime.Shim.Calls.{Waited, exited, still_waiting}
use systemd_runtime.Rpc.{
  Error, Reply, returned, failed, lost, TaskStatus, StateResponse, Described, WaitResponse,
  ShimService,
}

-- What the calls get from runc, the system and the texts of the container; `error_of` is what an error of
-- the service is to its caller.
pub record Answers : Type 0 where
  pub io : IoWorld
  pub cgroup_loads : Cgroup
  pub nil_panics : Bool
  pub run : Option RunError
  pub unmount : Option ℕ
  pub exec_err : Option Errors.Error
  pub close_err : Option Errors.Error
  pub ps : List ℕ
  pub shim_pid : ℕ
  pub error_of : Shim.Error → Error
  pub id : ℕ
  pub bundle : ℕ
  pub stdin : ℕ → ℕ
  pub stdout : ℕ → ℕ
  pub stderr : ℕ → ℕ
  pub terminal : ℕ → Bool
  pub resize_err : Option Errors.Error
  pub checkpoint_err : Option Errors.Error
  pub update_err : Option Errors.Error
  pub stats_err : Option Shim.Error
  pub statistics : ℕ

-- The switch of `State`.
unfoldable pub task_status : StateName → TaskStatus
task_status StateName.created = TaskStatus.created
task_status StateName.running = TaskStatus.running
task_status StateName.stopped = TaskStatus.stopped
task_status StateName.paused = TaskStatus.paused
task_status StateName.pausing = TaskStatus.pausing
task_status StateName.deleted = TaskStatus.unknown

abbrev pub reply : {A B : Type 0} → Answers → (A → Reply B) → Service × Ended A → Service × Reply B
reply a f (s, returns x) = (s, f x)
reply a f (s, refused e) = (s, failed (a.error_of e))
reply a f (s, panics) = (s, lost)
reply a f (s, blocks) = (s, lost)

abbrev pub wait_reply : Waited → Reply WaitResponse
wait_reply (exited e) = returned (record { exit_status = e.status; exited_at = e.timestamp })
wait_reply still_waiting = lost

-- The fields of `Status`. Behind the deletion the streams are empty.
abbrev pub described : Answers → Service → (exec_id : ℕ) → Exit → Described
described a s exec_id e = elim s.container [
  | some c ↦ record {
    pid = e.pid;
    stdin = a.stdin exec_id;
    stdout = a.stdout exec_id;
    stderr = a.stderr exec_id;
    terminal = a.terminal exec_id;
    exit_status = e.status;
    exited_at = e.timestamp;
  }
  | none ↦ record {
    pid = e.pid;
    stdin = 0;
    stdout = 0;
    stderr = 0;
    terminal = false;
    exit_status = e.status;
    exited_at = e.timestamp;
  }
]

-- The id of the answer: `p.ID()`, or the id of the shim.
abbrev pub id_in : Answers → (exec_id : ℕ) → ℕ
id_in a exec_id = if exec_id == 0 then a.id else exec_id

abbrev pub state_reply : Answers → Service → (exec_id : ℕ) → Calls.Status → Reply StateResponse
state_reply a s exec_id st = returned (record {
  id = id_in a exec_id;
  bundle = a.bundle;
  status = task_status st.status;
  described = described a s exec_id st.exit;
})

unfoldable pub shim_service : Answers → ShimService Service
shim_service a = record {
  start = λ s id. reply a returned (Calls.start s id a.io a.cgroup_loads);
  delete = λ s id. reply a returned (Calls.delete s id a.run a.unmount);
  exec = λ s c. reply a returned (Calls.exec s c.id c.terminal (not (c.stdin == 0)) a.exec_err);
  resize_pty = λ s id w h. reply a returned (Calls.resize_pty s id a.resize_err);
  state = λ s id. reply a (state_reply a s id) (Calls.state s id);
  kill = λ s id sig all. reply a returned (Calls.kill s id sig a.run);
  pids = λ s. reply a returned (Calls.pids s a.ps);
  close_io = λ s id. reply a returned (Calls.close_io s id a.close_err);
  checkpoint = λ s c. reply a returned (Calls.checkpoint s a.checkpoint_err);
  update = λ s r. reply a returned (Calls.update s a.update_err);
  wait = λ s id. reply a wait_reply (Calls.wait s id);
  connect = λ s.
      reply a (λ n. returned (record { shim_pid = a.shim_pid; task_pid = n })) (Calls.connect s);
  shutdown = λ s. reply a returned (Calls.shutdown s);
  stats = λ s. reply a returned (Calls.stats s a.nil_panics a.stats_err a.statistics);
}
