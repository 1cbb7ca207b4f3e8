-- ===== src/Rpc/Remote.antt =====
-- The calls of containerd (task/task_service.go, task/process.go) through the server of shim/rpc.go: which
-- call of the shim's service each becomes, and with what result.
use systemd_runtime.Common.{
  ℕ, [], Option, none, some, Bool, false, ◌==◌, if◌then◌else◌, ◌≡◌, refl, Bool-cases, inl, inr,
}
use systemd_runtime.Status.{Exit}
use systemd_runtime.Rpc.{
  Error, Reply, Codes, returned, failed, lost, map_error, map_reply, not_implemented, invalid,
  ShimService, options, WaitResponse, ExecConfig, CheckpointConfig, AnyOptions, unreadable,
  of_other_type,
}
use systemd_runtime.Rpc.Server.{task_service, uint16, answer, carried, config_of}
use systemd_runtime.Rpc.Server
use systemd_runtime.Rpc.Client
use systemd_runtime.Rpc.Client.{Client, ExecOpts, from, task_state, state_error, delete_error}
use systemd_runtime.Rpc.ClientProcess
use systemd_runtime.Rpc.ClientProcess.{Process, process_state}

-- What becomes of an error of the service on its way to containerd.
abbrev pub arrives : Codes → Error → Error
arrives k e = k.from_grpc (k.carry (k.to_grpc e))

abbrev pub sent : Codes → Error → Error
sent k e = k.carry (k.to_grpc e)

abbrev pub through : {S A B : Type 0} → (Error → Error) → (A → B) → S × Reply A → S × Reply B
through f g (s, r) = (s, map_reply g (map_error f r))

abbrev pub same : {A : Type 0} → A → A
same a = a

-- The result of `Wait`, and the arguments of `Exec`.
abbrev pub wait_exit : (pid : ℕ) → WaitResponse → Exit
wait_exit pid w = record { pid = pid; status = w.exit_status; timestamp = w.exited_at }

abbrev pub exec_config : (id : ℕ) → ExecOpts → ExecConfig
exec_config id o = record {
  id = id;
  terminal = o.terminal;
  stdin = o.stdin;
  stdout = o.stdout;
  stderr = o.stderr;
  spec = o.spec;
}

-- A checkpoint to a path, all else unset.
abbrev pub plain_config : (path : ℕ) → CheckpointConfig
plain_config path = record {
  path = path;
  exit = false;
  allow_open_tcp = false;
  allow_external_unix_sockets = false;
  allow_terminal = false;
  file_locks = false;
  empty_namespaces = [];
  work_dir = 0;
}

module _ {S : Type 0} (k : Codes) (svc : ShimService S) where
  chain :
      {A B : Type 0} (f : Error → Error) (g : A → B) (x : S × Reply A)
      → (x.0, map_reply g (map_error f (map_error k.carry (map_error k.to_grpc x.1))))
        ≡ through (λ e. f (sent k e)) g x
  chain f g (s, returned a) = refl
  chain f g (s, failed e) = refl
  chain f g (s, lost) = refl

  plain :
      {A : Type 0} (f : Error → Error) (x : S × Reply A)
      → (x.0, map_error f (map_error k.carry (map_error k.to_grpc x.1)))
        ≡ through (λ e. f (sent k e)) same x
  plain f (s, returned a) = refl
  plain f (s, failed e) = refl
  plain f (s, lost) = refl

  direct :
      {A : Type 0} (f : Error → Error) (x : S × Reply A)
      → (x.0, map_error f (map_error k.carry x.1)) ≡ through (λ e. f (k.carry e)) same x
  direct f (s, returned a) = refl
  direct f (s, failed e) = refl
  direct f (s, lost) = refl

  checkpoint_call :
      (c : Client) (s : S) (path : ℕ) (o : Option AnyOptions)
      → Client.checkpoint k (task_service k svc) c s path o ≡ elim o [
        | none ↦ through (λ e. k.from_grpc (k.carry e)) same (svc.checkpoint s (plain_config path))
        | some (options d) ↦
            through (λ e. k.from_grpc (k.carry e)) same (svc.checkpoint s (config_of path d))
        | some (unreadable e) ↦ (s, failed (arrives k e))
        | some of_other_type ↦ (s, lost)
      ]
  unfolding Client.checkpoint task_service Server.checkpoint
  checkpoint_call c s path none = direct k.from_grpc (svc.checkpoint s (plain_config path))
  checkpoint_call c s path (some (options d)) =
      direct k.from_grpc (svc.checkpoint s (config_of path d))
  checkpoint_call c s path (some (unreadable e)) = refl
  checkpoint_call c s path (some of_other_type) = refl

  abbrev pub TaskCalls : Client → S → Type 0
  TaskCalls c s =
      ((sig : ℕ) (all : Bool)
        → Client.kill k (task_service k svc) c s sig all
          ≡ through (arrives k) same (svc.kill s 0 sig all))
      × ((w h : ℕ)
          → Client.resize_pty k (task_service k svc) c s w h
            ≡ through (arrives k) same (svc.resize_pty s 0 (uint16 w) (uint16 h)))
      × (Client.close_io k (task_service k svc) c s ≡ through (arrives k) same (svc.close_io s 0))
      × (Client.state k (task_service k svc) c s
          ≡ through (λ e. state_error k (sent k e)) task_state (svc.state s 0))
      × (Client.wait k (task_service k svc) c s
          ≡ through (arrives k) (wait_exit c.task_pid) (svc.wait s 0))
      × (Client.delete k (task_service k svc) c s
          ≡ through (λ e. delete_error k (sent k e)) same (svc.delete s 0))
      × ((id : ℕ) (o : ExecOpts)
          → Client.exec k (task_service k svc) c s id o ≡ (
              if k.valid_id id
              then through (arrives k) same (svc.exec s (exec_config id o))
              else (s, failed (invalid id))))
      × (Client.pids k (task_service k svc) c s ≡ through (arrives k) same (svc.pids s))
      × ((path : ℕ) (o : Option AnyOptions)
          → Client.checkpoint k (task_service k svc) c s path o ≡ elim o [
            | none ↦
                through (λ e. k.from_grpc (k.carry e)) same (svc.checkpoint s (plain_config path))
            | some (options d) ↦
                through (λ e. k.from_grpc (k.carry e)) same (svc.checkpoint s (config_of path d))
            | some (unreadable e) ↦ (s, failed (arrives k e))
            | some of_other_type ↦ (s, lost)
          ])
      × ((resources : ℕ)
          → Client.update k (task_service k svc) c s resources
            ≡ through (arrives k) same (svc.update s resources))
      × (Client.stats k (task_service k svc) c s ≡ through (arrives k) same (svc.stats s))
      × (Client.start k (task_service k svc) c s ≡ (s, failed not_implemented))

  abbrev pub ProcessCalls : Process → S → Type 0
  ProcessCalls p s =
      ((sig : ℕ) (all : Bool)
        → ClientProcess.kill k (task_service k svc) p s sig all
          ≡ through (arrives k) same (svc.kill s p.id sig false))
      × ((w h : ℕ)
          → ClientProcess.resize_pty k (task_service k svc) p s w h
            ≡ through (arrives k) same (svc.resize_pty s p.id (uint16 w) (uint16 h)))
      × (ClientProcess.close_io k (task_service k svc) p s
          ≡ through (arrives k) same (svc.close_io s p.id))
      × (ClientProcess.state k (task_service k svc) p s
          ≡ through (λ e. state_error k (sent k e)) process_state (svc.state s p.id))
      × (ClientProcess.wait k (task_service k svc) p s
          ≡ through (arrives k) (wait_exit 0) (svc.wait s p.id))
      × (ClientProcess.delete k (task_service k svc) p s
          ≡ through (arrives k) same (svc.delete s p.id))
      × (ClientProcess.start k (task_service k svc) p s ≡ (
          if p.id == 0
          then (s, failed (k.from_grpc (k.carry not_implemented)))
          else through (arrives k) (λ n. tt) (svc.start s p.id)))

  pub task_calls : (c : Client) (s : S) → TaskCalls c s
  unfolding Client.kill Client.resize_pty Client.close_io Client.state Client.wait Client.delete
      Client.exec Client.pids Client.checkpoint Client.update Client.stats Client.start task_service
      Server.kill Server.resize_pty Server.close_io Server.state Server.wait Server.delete
      Server.exec Server.pids Server.checkpoint Server.update Server.stats
  task_calls c s = (
    λ sig all. plain k.from_grpc (svc.kill s 0 sig all),
    λ w h. plain k.from_grpc (svc.resize_pty s 0 (uint16 w) (uint16 h)),
    plain k.from_grpc (svc.close_io s 0),
    chain (state_error k) task_state (svc.state s 0),
    chain k.from_grpc (wait_exit c.task_pid) (svc.wait s 0),
    plain (delete_error k) (svc.delete s 0),
    λ id o. elim (Bool-cases (k.valid_id id)) [
      | inl t ↦ rw t (plain k.from_grpc (svc.exec s (exec_config id o)))
      | inr f ↦ rw f refl
    ],
    plain k.from_grpc (svc.pids s),
    checkpoint_call c s,
    λ resources. plain k.from_grpc (svc.update s resources),
    plain k.from_grpc (svc.stats s),
    refl,
  )

  -- Each call of containerd on a process that was executed in a task is exactly one call of the shim's
  -- service with the id of the process, and with its result, if the id is not empty. `Kill` asks to
  -- kill that process only, whatever its flag says; the exit that `Wait` gives has no pid. With the
  -- empty id, `Start` is refused and calls nothing.
  pub process_calls : (p : Process) (s : S) → ProcessCalls p s
  unfolding ClientProcess.kill ClientProcess.resize_pty ClientProcess.close_io ClientProcess.state
      ClientProcess.wait ClientProcess.delete ClientProcess.start task_service Server.kill
      Server.resize_pty Server.close_io Server.state Server.wait Server.delete Server.start
  process_calls p s = (
    λ sig all. plain k.from_grpc (svc.kill s p.id sig false),
    λ w h. plain k.from_grpc (svc.resize_pty s p.id (uint16 w) (uint16 h)),
    plain k.from_grpc (svc.close_io s p.id),
    chain (state_error k) process_state (svc.state s p.id),
    chain k.from_grpc (wait_exit 0) (svc.wait s p.id),
    plain k.from_grpc (svc.delete s p.id),
    elim (Bool-cases (p.id == 0)) [
      | inl t ↦ rw t refl
      | inr f ↦ rw f (chain k.from_grpc (λ n. tt) (svc.start s p.id))
    ],
  )
