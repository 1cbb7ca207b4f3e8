-- ===== src/Shim/Calls.antt =====
-- The calls of shim/service.go.
use systemd_runtime.Common.{
  ℕ, List, [], ◌∷◌, Option, none, some, Bool, true, ◌&&◌, ◌||◌, ◌==◌, if◌then◌else◌,
}
use systemd_runtime.Process.{StateName, IoWorld}
use systemd_runtime.Process.Errors.{RunError}
use systemd_runtime.Process.Errors
use systemd_runtime.Process.Init.Ops
use systemd_runtime.Process.Exec
use systemd_runtime.Status.{Exit}
use systemd_runtime.Container
use systemd_runtime.Container.Passed
use systemd_runtime.Container.{
  Container, Cgroup, no_cgroup, group, nil_manager, Process, init_process, exec_process, pid_of,
  done, failed, panicked, find_process, with_process, reserve_process, exec_reserved,
  execd_processes, already_exists, process_error,
}
use systemd_runtime.Shim
use systemd_runtime.Shim.{
  Service, Ended, returns, refused, panics, container_error, with_container, sending, closing,
  after, id_of, exit_of, uint32, perform_delete, missing, exec_started, exec_added,
}

-- `Start`
unfoldable pub start : Service → (id : ℕ) → IoWorld → (loads : Cgroup) → Service × Ended ℕ
start s id w loads = with_container s s.container (λ c.
    after s (Container.start c id w loads) (λ t p.
      sending t (exec_started id (uint32 (pid_of p))) (λ t'. (t', returns (uint32 (pid_of p))))))

-- The end of a deletion of the container: on success it is gone.
abbrev pub release_deleted : Service × Ended Exit → Service × Ended Exit
release_deleted (s, returns e) = (record s { container = none; deleted = true }, returns e)
release_deleted (s, other) = (s, other)

-- The recorded exit; a read before it was recorded panics.
abbrev pub recorded : {A : Type 0} → Service → (Exit → A) → Service × Ended A
recorded s f = elim s.exit_status [ some e ↦ (s, returns (f e)) | none ↦ (s, panics) ]

delete_container : Service → Option Container → Option RunError → Option ℕ → Service × Ended Exit
delete_container s (some c) run u = release_deleted (perform_delete s c 0 run u)
delete_container s none run u =
    if s.deleted then closing s (λ t. recorded t (λ e. e)) else (s, refused (missing s))

-- `Delete`
unfoldable pub delete : Service → (id : ℕ) → Option RunError → Option ℕ → Service × Ended Exit
unfolding delete_container
delete s id run u =
    if id == 0
    then delete_container s s.container run u
    else with_container s s.container (λ c. perform_delete s c id run u)

-- `Exec`
unfoldable pub exec :
    Service → (id : ℕ) → (terminal stdin : Bool) → Option Errors.Error → Service × Ended (Unit {0})
exec s id terminal stdin err = with_container s s.container (λ c.
    let (c', ok) = reserve_process c id in
    if ok
    then after s (exec_reserved c' id terminal stdin err)
        (λ t p. sending t (exec_added (id_of p)) (λ t'. (t', returns tt)))
    else (s, refused (container_error already_exists)))

-- `Status`, without the texts.
pub record Status : Type 0 where
  pub status : StateName
  pub exit : Exit

abbrev pub status_name : Container → Process → StateName
status_name c (init_process p) = Ops.status_of p
status_name c (exec_process id e) = Exec.status_of e (Ops.status_of c.process)

abbrev pub status_in : Service → Container → Container.Found → Service × Ended Status
status_in s c (Container.missing e) = (s, refused (container_error e))
status_in s c (Container.found p) =
    (s, returns (record { status = status_name c p; exit = exit_of p }))

-- `State`; behind a deletion the pid is 0.
unfoldable pub state : Service → (id : ℕ) → Service × Ended Status
state s id = elim s.container [
  | some c ↦ status_in s c (find_process c id)
  | none ↦
      if s.deleted && id == 0
      then recorded s (λ e. record { status = StateName.stopped; exit = record e { pid = 0 } })
      else (s, refused (missing s))
]

-- `Kill` up to `container.Kill`, whose error it returns.
unfoldable pub kill_sent : Service → (id : ℕ) → Option RunError → Service × Ended (Unit {0})
kill_sent s id run =
    with_container s s.container (λ c. after s (Container.kill c id run) (λ t p. (t, returns tt)))

-- The rest of `Kill` if there was none: `setDisabled`. Other calls that only read the container, and
-- the exit of a process too, may come between the two parts.
unfoldable pub kill_ends : Service → (id sig : ℕ) → Service
kill_ends s id sig = if (sig == 15 || sig == 9) && id == 0 then record s { disabled = true } else s

abbrev pub kill_rest : (id sig : ℕ) → Service × Ended (Unit {0}) → Service × Ended (Unit {0})
kill_rest id sig (s, returns u) = (kill_ends s id sig, returns u)
kill_rest id sig (s, other) = (s, other)

-- `Kill`, with nothing in between.
unfoldable pub kill : Service → (id sig : ℕ) → Option RunError → Service × Ended (Unit {0})
unfolding kill_sent kill_ends
kill s id sig run = kill_rest id sig (kill_sent s id run)

-- `killContainer`, for a signal that the shim gets.
unfoldable pub kill_container : Service → Option RunError → Service × Ended (Unit {0})
kill_container s run =
    with_container s s.container (λ c. after s (Container.kill c 0 run) (λ t p. (t, returns tt)))

-- The loop of `Pids` over the processes: the id of the first one that has the pid.
unfoldable pub exec_id_of : ℕ → List Process → Option ℕ
exec_id_of n [] = none
exec_id_of n (p ∷ ps) = if pid_of p == n then some (id_of p) else exec_id_of n ps

unfoldable pub process_infos : List Process → List ℕ → List (ℕ × Option ℕ)
unfolding exec_id_of
process_infos ps [] = []
process_infos ps (n ∷ ns) = (n, exec_id_of n ps) ∷ process_infos ps ns

-- `Pids`, given the pids of runc.
unfoldable pub pids : Service → List ℕ → Service × Ended (List (ℕ × Option ℕ))
unfolding process_infos execd_processes
pids s ns = with_container s s.container (λ c. (s, returns (process_infos (execd_processes c) ns)))

-- A call that passes on to a method of the container, whose result is an error only.
abbrev pub passed : Service → (Container → Container × Container.End) → Service × Ended (Unit {0})
passed s f = with_container s s.container (λ c. after s (f c) (λ t p. (t, returns tt)))

-- `ResizePty`, `CloseIO`, `Checkpoint` and `Update`
unfoldable pub resize_pty :
    Service → (id : ℕ) → (resize_err : Option Errors.Error) → Service × Ended (Unit {0})
resize_pty s id err = passed s (λ c. Passed.resize_pty c id err)

unfoldable pub close_io :
    Service → (id : ℕ) → (close_err : Option Errors.Error) → Service × Ended (Unit {0})
close_io s id err = passed s (λ c. Passed.close_io c id err)

unfoldable pub checkpoint :
    Service → (checkpoint_err : Option Errors.Error) → Service × Ended (Unit {0})
checkpoint s err = passed s (λ c. Passed.checkpoint c err)

unfoldable pub update : Service → (update_err : Option Errors.Error) → Service × Ended (Unit {0})
update s err = passed s (λ c. Passed.update c err)

abbrev pub told : Service → Option Shim.Error → ℕ → Service × Ended ℕ
told s (some e) statistics = (s, refused e)
told s none statistics = (s, returns statistics)

-- `Stats`, given what the cgroup tells, and whether a method of a nil `*cgroupsv2.Manager` panics.
unfoldable pub stats :
    Service
    → (nil_panics : Bool) → (stats_err : Option Shim.Error) → (statistics : ℕ) → Service × Ended ℕ
stats s nil_panics err statistics = with_container s s.container (λ c. elim c.cgroup [
  | no_cgroup ↦ (s, refused (container_error Container.not_found))
  | group ↦ told s err statistics
  | nil_manager ↦ if nil_panics then (s, panics) else told s err statistics
])

-- How `Wait` ends: with the status and the time of the exit, or it still waits for it.
pub data Waited : Type 0 where
  exited : Exit → Waited
  still_waiting : Waited

abbrev pub waited : Process → Waited
waited (init_process p) =
    if p.waiters_released then exited (exit_of (init_process p)) else still_waiting
waited (exec_process id e) =
    if e.waiters_released then exited (exit_of (exec_process id e)) else still_waiting

unfoldable pub wait : Service → (id : ℕ) → Service × Ended Waited
wait s id = with_container s s.container (λ c. elim (find_process c id) [
  | Container.missing e ↦ (s, refused (container_error e))
  | Container.found p ↦ (s, returns (waited p))
])

-- `Connect`: the pid of the task; that of the shim is known outside.
unfoldable pub connect : Service → Service × Ended ℕ
connect s = with_container s s.container (λ c. (s, returns (uint32 (Container.pid c))))

-- `Shutdown`
unfoldable pub shutdown : Service → Service × Ended (Unit {0})
shutdown s = if s.deleted then closing s (λ t. (t, returns tt)) else (s, returns tt)
