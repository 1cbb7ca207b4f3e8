-- ===== src/Rpc/Server.antt =====
-- shim/rpc.go: how a shim answers the requests of the protocol with its `ShimService`.
use systemd_runtime.Common.{ℕ, ◌%◌, ◌^◌, List, [], Option, none, some, false, ◌==◌, if◌then◌else◌}
use systemd_runtime.Status.{Exit}
use systemd_runtime.Rpc.{
  Reply, Codes, returned, failed, lost, map_error, not_implemented, Target, ExecRequest,
  ResizeRequest, KillRequest, CloseRequest, CheckpointRequest, UpdateRequest, StateResponse,
  WaitResponse, ConnectResponse, ShimService, TaskService, CheckpointOptions, CheckpointConfig,
  AnyOptions, options, unreadable, of_other_type,
}

-- The conversion `uint16(...)`.
abbrev pub uint16 : ℕ → ℕ
uint16 n = n % 2 ^ 16

abbrev pub no_options : CheckpointOptions
no_options = record {
  exit = false;
  open_tcp = false;
  external_unix_sockets = false;
  terminal = false;
  file_locks = false;
  empty_namespaces = [];
  work_path = 0;
}

-- The options of `Checkpoint`; `lost` is a failed type assertion.
abbrev pub read_options : Codes → Option AnyOptions → Reply CheckpointOptions
read_options k none = returned no_options
read_options k (some (options o)) = returned o
read_options k (some (unreadable e)) = failed (k.to_grpc e)
read_options k (some of_other_type) = lost

abbrev pub config_of : (path : ℕ) → CheckpointOptions → CheckpointConfig
config_of path o = record {
  path = path;
  exit = o.exit;
  allow_open_tcp = o.open_tcp;
  allow_external_unix_sockets = o.external_unix_sockets;
  allow_terminal = o.terminal;
  file_locks = o.file_locks;
  empty_namespaces = o.empty_namespaces;
  work_dir = o.work_path;
}

module _ {S : Type 0} (k : Codes) (svc : ShimService S) where
  -- The result of a call of the service, its error as `errdefs.ToGRPC` gives it.
  abbrev pub answer : {A : Type 0} → S × Reply A → S × Reply A
  answer (s, r) = (s, map_error k.to_grpc r)

  unfoldable pub start : S → Target → S × Reply ℕ
  start s r = if r.exec_id == 0 then (s, failed not_implemented) else answer (svc.start s r.exec_id)

  unfoldable pub delete : S → Target → S × Reply Exit
  delete s r = answer (svc.delete s r.exec_id)

  unfoldable pub exec : S → ExecRequest → S × Reply (Unit {0})
  exec s r = answer (
      svc.exec s (record {
        id = r.exec_id;
        terminal = r.terminal;
        stdin = r.stdin;
        stdout = r.stdout;
        stderr = r.stderr;
        spec = r.spec;
      }))

  unfoldable pub resize_pty : S → ResizeRequest → S × Reply (Unit {0})
  resize_pty s r = answer (svc.resize_pty s r.target.exec_id (uint16 r.width) (uint16 r.height))

  unfoldable pub state : S → Target → S × Reply StateResponse
  state s r = answer (svc.state s r.exec_id)

  unfoldable pub kill : S → KillRequest → S × Reply (Unit {0})
  kill s r = answer (svc.kill s r.target.exec_id r.signal r.all)

  unfoldable pub pids : S → (id : ℕ) → S × Reply (List (ℕ × Option ℕ))
  pids s id = answer (svc.pids s)

  unfoldable pub close_io : S → CloseRequest → S × Reply (Unit {0})
  close_io s r = answer (svc.close_io s r.target.exec_id)

  -- The service itself makes the error of `Checkpoint` fit for the protocol.
  unfoldable pub checkpoint : S → CheckpointRequest → S × Reply (Unit {0})
  checkpoint s r = elim (read_options k r.options) [
    | returned o ↦ svc.checkpoint s (config_of r.path o)
    | failed e ↦ (s, failed e)
    | lost ↦ (s, lost)
  ]

  unfoldable pub update : S → UpdateRequest → S × Reply (Unit {0})
  update s r = answer (svc.update s r.resources)

  unfoldable pub wait : S → Target → S × Reply WaitResponse
  wait s r = answer (svc.wait s r.exec_id)

  unfoldable pub connect : S → (id : ℕ) → S × Reply ConnectResponse
  connect s id = answer (svc.connect s)

  unfoldable pub shutdown : S → (id : ℕ) → S × Reply (Unit {0})
  shutdown s id = answer (svc.shutdown s)

  unfoldable pub stats : S → (id : ℕ) → S × Reply ℕ
  stats s id = answer (svc.stats s)

  -- `Create`, `Pause` and `Resume`
  unfoldable pub unsupported : S → (id : ℕ) → S × Reply (Unit {0})
  unsupported s id = (s, failed not_implemented)

  -- The result as the client gets it over the connection.
  abbrev pub carried : {A : Type 0} → S × Reply A → S × Reply A
  carried (s, r) = (s, map_error k.carry r)

  -- The `TaskService` that a client of the shim has.
  unfoldable pub task_service : TaskService S
  task_service = record {
    start = λ s r. carried (start s r);
    delete = λ s r. carried (delete s r);
    exec = λ s r. carried (exec s r);
    resize_pty = λ s r. carried (resize_pty s r);
    state = λ s r. carried (state s r);
    kill = λ s r. carried (kill s r);
    pids = λ s r. carried (pids s r);
    close_io = λ s r. carried (close_io s r);
    checkpoint = λ s r. carried (checkpoint s r);
    update = λ s r. carried (update s r);
    wait = λ s r. carried (wait s r);
    connect = λ s r. carried (connect s r);
    shutdown = λ s r. carried (shutdown s r);
    stats = λ s r. carried (stats s r);
    create = λ s r. carried (unsupported s r);
    pause = λ s r. carried (unsupported s r);
    resume = λ s r. carried (unsupported s r);
  }
