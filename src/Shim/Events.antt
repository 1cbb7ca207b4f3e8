-- ===== src/Shim/Events.antt =====
-- What a shim tells when a process exits (shim/shim.go).
use systemd_runtime.Common.{
  ℕ, ◌+◌, List, [], ◌∷◌, ◌++◌, map, length, some, true, false, ◌==◌, if◌then◌else◌, ◌≡◌, ◌≢◌, ◌∙◌,
  ap, arith,
}
use systemd_runtime.Process.{ok}
use systemd_runtime.Process.Init.Ops
use systemd_runtime.Process.Init.Lifecycle
use systemd_runtime.Process.Init.{Init, stopped, transition_from}
use systemd_runtime.Process.Init.Lifecycle.{is_alive}
use systemd_runtime.Process.Exec.{ExecProcess}
use systemd_runtime.Container
use systemd_runtime.Container.{
  Container, Process, init_process, exec_process, pid_of, has_pid, all, execd_processes, any_pid,
  put_process, set_exited,
}
use systemd_runtime.Shim.{Service, returns, put, uint32, task_exit, task_paused}
use systemd_runtime.Shim.Exits.{
  Exited, check_process, check_all, check_processes, exit_event, container_or,
}

-- None of the executed processes has the pid.
abbrev pub Others : ℕ → List (ℕ × ExecProcess) → Type 0
Others n [] = Unit
Others n ((id, e) ∷ ps) = (e.attached.pid ≢ n) × Others n ps

check_process-other :
    (s : Service) (c : Container) (p : Process) (e : Exited)
    → pid_of p ≢ e.pid
    → check_process s c p e ≡ (s, returns false)
unfolding check_process
check_process-other s c p e ne = ground arith

check_all-Others :
    (s : Service) (c : Container) (ps : List (ℕ × ExecProcess)) (rest : List Process) (e : Exited)
    (living : ℕ)
    → s.container ≡ some c
    → Others e.pid ps
    → check_all s c (map (λ p. exec_process p.0 p.1) ps ++ rest) e living
      ≡ check_all s c rest e (living + length ps)
unfolding check_all
check_all-Others s c [] rest e living h o = ap (check_all s c rest e) (omega arith)
check_all-Others s c ((id, q) ∷ ps) rest e living h (ne, o) =
    rw (check_process-other s c (exec_process id q) e ne) (
      ap
        (λ x.
          check_all s (container_or c x) (map (λ p. exec_process p.0 p.1) ps ++ rest) e
            (living + 1))
        h
      ∙ check_all-Others s c ps rest e (living + 1) h o
      ∙ ap (check_all s c rest e) (omega arith))

-- The last process of the list is the one that exited.
check_all-last :
    (s : Service) (c : Container) (p q : Process) (e : Exited) (living : ℕ)
    → pid_of p ≡ e.pid
    → set_exited p e.status e.now ≡ (q, ok)
    → s.closes ≡ 0
    → check_all s c (p ∷ []) e living ≡ (
      record (put s (put_process c q)) { events = s.events ++ (exit_event s c q e ∷ []) },
      returns living,
    )
unfolding check_all check_process
check_all-last s c p q e living h x d = ground arith

-- An init process that has ended with a status at a time.
abbrev pub ended : Init → (status now : ℕ) → Init
ended p status now = record p {
  state = stopped;
  status = status;
  exited = some now;
  waiters_released = true;
}

set_exited-init :
    (p : Init) (status now : ℕ)
    → Lifecycle.IsValid p
    → is_alive p.state ≡ true
    → set_exited (init_process p) status now ≡ (init_process (ended p status now), ok)
unfolding set_exited Ops.set_exited transition_from
set_exited-init p status now v a = ground arith

has_pid-init : (c : Container) (n : ℕ) → c.process.attached.pid ≡ n → has_pid c n ≡ true
unfolding has_pid Container.pid
has_pid-init c n h = ground arith

loop_init :
    (s : Service) (c : Container) (e : Exited)
    → s.container ≡ some c
    → s.closes ≡ 0
    → Lifecycle.IsValid c.process
    → is_alive c.process.state ≡ true
    → c.process.attached.pid ≡ e.pid
    → Others e.pid c.processes
    → check_all s c (all c) e 0 ≡ (
      record (put s (put_process c (init_process (ended c.process e.status e.now)))) {
        events =
            s.events ++ (exit_event s c (init_process (ended c.process e.status e.now)) e ∷ []);
      },
      returns (0 + length c.processes),
    )
unfolding all execd_processes
loop_init s c e h d v alive at others =
    check_all-Others s c c.processes (init_process c.process ∷ []) e 0 h others
    ∙ check_all-last s c (init_process c.process) (init_process (ended c.process e.status e.now)) e
        (0 + length c.processes) at (set_exited-init c.process e.status e.now v alive) d

-- The exit of a living init process, whose pid none of the executed processes has, ends that process
-- with the status and the time of the exit, and sends exactly one event: that the task is paused, or,
-- if the shim is disabled, that it exited, with pid 0. `cleanup` follows exactly if the shim has
-- started and the container has no executed process.
pub init_exit :
    (s : Service) (c : Container) (e : Exited)
    → s.container ≡ some c
    → s.closes ≡ 0
    → Lifecycle.IsValid c.process
    → is_alive c.process.state ≡ true
    → c.process.attached.pid ≡ e.pid
    → Others e.pid c.processes
    → let (t, end) = check_processes s e in
      (end ≡ returns (if s.started then length c.processes == 0 else false))
      × (t.container ≡ some (record c { process = ended c.process e.status e.now }))
      × (t.events
          ≡ s.events
            ++ ((if s.disabled
                  then task_exit 0 (record { pid = 0; status = uint32 e.status; timestamp = e.now })
                  else task_paused)
                ∷ []))
      × (t.closes ≡ 0)
unfolding check_processes exit_event put_process Container.pid
init_exit s c e h d v alive at others =
    ground (arith, has_pid-init c e.pid at, loop_init s c e h d v alive at others)
