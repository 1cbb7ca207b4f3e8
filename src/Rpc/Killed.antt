-- ===== src/Rpc/Killed.antt =====
-- A task that containerd kills, and what it hears of it: task/task_service.go, shim/rpc.go,
-- shim/service.go and shim/shim.go together.
use systemd_runtime.Common.{
  ℕ, [], ◌∷◌, ◌++◌, Option, some, Bool, true, false, ◌==◌, if◌then◌else◌, ◌≡◌, refl, ap, ◌∙◌, arith,
  ◌||◌,
}
use systemd_runtime.Process.{StateName}
use systemd_runtime.Process.Errors.{RunError}
use systemd_runtime.Process.Init.Lifecycle
use systemd_runtime.Process.Init.Lifecycle.{is_alive}
use systemd_runtime.Container
use systemd_runtime.Container.{Container, init_process}
use systemd_runtime.Process.Init.Ops
use systemd_runtime.Shim
use systemd_runtime.Shim.{Service, Ended, returns, exit_of, uint32, task_exit, task_paused}
use systemd_runtime.Shim.Calls
use systemd_runtime.Shim.Exits.{Exited, check_processes}
use systemd_runtime.Shim.Events.{Others, ended, init_exit}
use systemd_runtime.Rpc.{Reply, Codes, returned, State, RuntimeStatus, Error}
use systemd_runtime.Rpc.Server.{task_service}
use systemd_runtime.Rpc.Client
use systemd_runtime.Rpc.Client.{Client, status_of}
use systemd_runtime.Rpc.Service.{task_status, described, state_reply, Answers, shim_service, reply}
use systemd_runtime.Rpc.Remote.{through, sent, same, arrives, task_calls}

kill_disables :
    (s : Service) (c : Container) (sig : ℕ) (run : Option RunError)
    → s.container ≡ some c
    → (sig == 15 || sig == 9) ≡ true
    → (Calls.kill s 0 sig run).1 ≡ returns tt
    → (Calls.kill s 0 sig run).0 ≡ record s { container = some c; disabled = true }
unfolding Calls.kill Calls.kill_sent Calls.kill_ends Container.kill Container.find_process
kill_disables s c sig run h g r = ground arith

kill_leaves :
    (s : Service) (c : Container) (sig : ℕ) (run : Option RunError)
    → s.container ≡ some c
    → (Calls.kill s 0 sig run).1 ≡ returns tt
    → (Calls.kill_sent s 0 run).0 ≡ record s { container = some c }
unfolding Calls.kill Calls.kill_sent Calls.kill_ends Container.kill Container.find_process
kill_leaves s c sig run h r = ground arith

kill_ends_lem :
    (s : Service) (sig : ℕ)
    → (sig == 15 || sig == 9) ≡ true
    → Calls.kill_ends s 0 sig ≡ record s { disabled = true }
unfolding Calls.kill_ends
kill_ends_lem s sig g = ground arith

shows_stopped :
    (s : Service) (c : Container) (e : Exited)
    → s.container ≡ some (record c { process = ended c.process e.status e.now })
    → c.process.pausing ≡ false
    → Calls.state s 0 ≡ (
      s,
      returns (record {
        status = StateName.stopped;
        exit = exit_of (init_process (ended c.process e.status e.now));
      }),
    )
unfolding Calls.state Container.find_process Ops.status_of
shows_stopped s c e h calm = ground arith

-- What a stopped init process shows.
abbrev pub ShowsExit : State → Exited → Type 0
ShowsExit st e =
    (st.status ≡ RuntimeStatus.stopped)
    × (st.described.exit_status ≡ uint32 e.status)
    × (st.described.exited_at ≡ e.now)
    × (st.described.pid ≡ 0)

through_returned :
    (a : Answers) (f : Error → Error) (r : Service × Ended (Unit {0}))
    (x : Service × Reply (Unit {0}))
    → x ≡ through f same (reply a returned r)
    → x.1 ≡ returned tt
    → (r.1 ≡ returns tt) × (x.0 ≡ r.0)
through_returned a f (t, returns u) x e h = (refl, ap (λ y. y.0) e)
through_returned a f (t, Shim.refused y) x e h = absurd (let no_case : ⊥ = cc in no_case)
through_returned a f (t, Shim.panics) x e h = absurd (let no_case : ⊥ = cc in no_case)
through_returned a f (t, Shim.blocks) x e h = absurd (let no_case : ⊥ = cc in no_case)

module _ (k : Codes) (a : Answers) (cl : Client) where
  kill_returned :
      (s : Service) (sig : ℕ) (all : Bool)
      → (Client.kill k (task_service k (shim_service a)) cl s sig all).1 ≡ returned tt
      → ((Calls.kill s 0 sig a.run).1 ≡ returns tt)
        × ((Client.kill k (task_service k (shim_service a)) cl s sig all).0
            ≡ (Calls.kill s 0 sig a.run).0)
  unfolding shim_service
  kill_returned s sig all h =
      through_returned a (arrives k) (Calls.kill s 0 sig a.run)
        (Client.kill k (task_service k (shim_service a)) cl s sig all)
        ((task_calls k (shim_service a) cl s).0 sig all) h

  stopped_state :
      (s : Service) (c : Container) (e : Exited)
      → s.container ≡ some (record c { process = ended c.process e.status e.now })
      → c.process.pausing ≡ false
      → (st : State) × ((Client.state k (task_service k (shim_service a)) cl s).1 ≡ returned st)
        × ShowsExit st e
  unfolding shim_service task_status status_of
  stopped_state s c e h calm = (
    record {
      status = RuntimeStatus.stopped;
      described =
          record (described a s 0 (exit_of (init_process (ended c.process e.status e.now)))) {
            pid = 0;
          };
    },
    ap (λ x. x.1) ((task_calls k (shim_service a) cl s).3)
        ∙ ap
            (λ x.
              (through (λ y. Client.state_error k (sent k y)) Client.task_state
                (reply a (state_reply a s 0) x)).1)
            (shows_stopped s c e h calm)
        ∙ refl,
    rw h (refl, refl, refl, refl),
  )

-- The init process of a container is alive, no executed process has its pid, and containerd's `Kill` of
-- the task with SIGTERM or SIGKILL succeeds. If the exit of the init process is the next thing that
-- the shim handles after the call, it is told with exactly one event, that the task exited with that
-- status at that time, and with pid 0. If it is handled within the call, between the signal and
-- `setDisabled`, it is also told with exactly one event, but, unless the shim was disabled before,
-- with the one that the task is paused. In both cases the shim is disabled in the end, and
-- containerd's `State` of the task then succeeds and says that it is stopped, with that status and
-- time, and with pid 0.
pub killed_exits :
    (k : Codes) (a : Answers) (cl : Client) (s : Service) (c : Container) (sig : ℕ) (all : Bool)
    (e : Exited)
    → s.container ≡ some c
    → s.closes ≡ 0
    → Lifecycle.IsValid c.process
    → is_alive c.process.state ≡ true
    → c.process.attached.pid ≡ e.pid
    → Others e.pid c.processes
    → (sig == 15 || sig == 9) ≡ true
    → (Client.kill k (task_service k (shim_service a)) cl s sig all).1 ≡ returned tt
    → let t =
        (check_processes (Client.kill k (task_service k (shim_service a)) cl s sig all).0 e).0 in
      let u = Calls.kill_ends (check_processes (Calls.kill_sent s 0 a.run).0 e).0 0 sig in
      let exit = task_exit 0 (record { pid = 0; status = uint32 e.status; timestamp = e.now }) in
      ((t.events ≡ s.events ++ (exit ∷ []))
        × ((Client.kill k (task_service k (shim_service a)) cl s sig all).0.disabled ≡ true)
        × (st : State) × ((Client.state k (task_service k (shim_service a)) cl t).1 ≡ returned st)
        × ShowsExit st e)
      × ((u.events ≡ s.events ++ ((if s.disabled then exit else task_paused) ∷ []))
          × (u.disabled ≡ true)
          × (st : State) × ((Client.state k (task_service k (shim_service a)) cl u).1 ≡ returned st)
          × ShowsExit st e)
killed_exits k a cl s c sig all e h d v alive at others g r =
    let (kr, ks) = kill_returned k a cl s sig all r in
    let w = record s { container = some c; disabled = true } in
    let (end, box, told, still) = init_exit w c e refl d v alive at others in
    let x = record s { container = some c } in
    let (end', box', told', still') = init_exit x c e refl d v alive at others in
    let between = check_processes x e in
    let u = record between.0 { disabled = true } in
    let (st, says, shows) = stopped_state k a cl (check_processes w e).0 c e box v.idle in
    let (st', says', shows') = stopped_state k a cl u c e box' v.idle in
    (
      rw (ks ∙ kill_disables s c sig a.run h g kr) (told, refl, st, says, shows),
      rw (kill_leaves s c sig a.run h kr, kill_ends_lem between.0 sig g)
          (told', refl, st', says', shows'),
    )
