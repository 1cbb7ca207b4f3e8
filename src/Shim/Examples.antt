-- ===== src/Shim/Examples.antt =====
-- Runs of the shim of shim/service.go and shim/shim.go.
use systemd_runtime.Container.{group}
use systemd_runtime.Common.{ℕ, [], ◌∷◌, none, some, Option, true, false, ◌≡◌, refl}
use systemd_runtime.Process.{StateName}
use systemd_runtime.Process.Errors.{RunError}
use systemd_runtime.Process.Init.{Init, new_init, running, deleted, transition_from}
use systemd_runtime.Process.Init.Lifecycle
use systemd_runtime.Process.Init.Ops
use systemd_runtime.Flock.{file_lock}
use systemd_runtime.Flock
use systemd_runtime.Status.{StatusManager, World, read, no_status}
use systemd_runtime.Container
use systemd_runtime.Container.{Container, Process, init_process, new_container, done}
use systemd_runtime.Shim.{Service, returns, panics, exit_of, new_service, task_exit, uint32}
use systemd_runtime.Shim.Waiting.{Callers, Steps, Same, at_rest, wait_deadlocks}
use systemd_runtime.Shim.Calls.{state, delete, shutdown, wait, still_waiting}
use systemd_runtime.Shim.Exits.{cleanup, check_processes}
use systemd_runtime.Shim.Boot.{BootWorld, boot, supplied}
use systemd_runtime.Shim.Ends.{Writable, cleanup_recorded, deleted_first_panics}
use systemd_runtime.Shim.Events.{ended, init_exit}
use systemd_runtime.Shim.Releases.{IsFresh, BootEnds}
use systemd_runtime.Shim.Locks.{boot_lem}

abbrev manager : StatusManager
manager = record {
  status_file_locked = false;
  running_file_locked = false;
  status_held = false;
  running_held = false;
  written = [];
}

abbrev files : World
files = record {
  tries = record { answer = none; done = false } ∷ [];
  found = read no_status;
  running = none;
  probe = Flock.unlocked;
  write_err = none;
  unlock_err = none;
}

abbrev live : Init
live = record (new_init false true) {
  state = running;
  attached = record { io = true; console = false; closers = 0; pid = 42 };
}

abbrev box : Container
box = record { cgroup = group; process = live; processes = []; reserved_process = [] }

abbrev serving : Service
serving = record {
  container = some box;
  deleted = false;
  started = true;
  disabled = true;
  first_started = true;
  exit_status = none;
  events = [];
  closes = 0;
  mng = manager;
}

abbrev stopped_box : Container
stopped_box = record box { process = ended live 137 100 }

abbrev deleted_init : Init
deleted_init = record (ended live 137 100) { state = deleted; io_closed = true }

abbrev stopped_service : Service
stopped_service = record serving { container = some stopped_box }

files-Writable : Writable files no_status
unfolding file_lock
files-Writable = record { lockable = refl; status_read = refl; writable = refl; unlockable = refl }

stopped_deletes :
    Container.delete stopped_box 0 none none
    ≡ (record stopped_box { process = deleted_init }, done (init_process deleted_init))
unfolding Container.delete Container.find_process Container.delete_process Container.put_process
    Ops.delete transition_from
stopped_deletes = refl

cleanup_recorded_example :
    let (t, end) = cleanup stopped_service none none files in
    (end ≡ returns tt)
    × (t.container ≡ none)
    × (t.exit_status ≡ some (exit_of (init_process deleted_init)))
    × (t.mng.written ≡ record no_status { exit = some (exit_of (init_process deleted_init)) } ∷ [])
    × (t.mng.status_file_locked ≡ false)
    × (t.events ≡ [])
    × (t.closes ≡ 0)
    × ((state t 0).1
        ≡ returns (record {
          status = StateName.stopped;
          exit = record (exit_of (init_process deleted_init)) { pid = 0 };
        }))
    × ((run' : Option RunError) (u' : Option ℕ)
        → (delete t 0 run' u').1 ≡ returns (exit_of (init_process deleted_init)))
    × ((shutdown t).1 ≡ returns tt)
cleanup_recorded_example =
    cleanup_recorded stopped_service stopped_box (record stopped_box { process = deleted_init })
      (init_process deleted_init) none none files no_status refl stopped_deletes refl refl
      files-Writable

deleted_first_panics_example :
    let (t, end) = delete stopped_service 0 none none in
    (end ≡ returns (exit_of (init_process deleted_init)))
    × (cleanup t none none files ≡ (t, returns tt))
    × (t.mng ≡ manager)
    × (t.closes ≡ 0)
    × ((state t 0).1 ≡ panics)
    × ((run' : Option RunError) (u' : Option ℕ) → (delete t 0 run' u').1 ≡ panics)
deleted_first_panics_example =
    deleted_first_panics stopped_service stopped_box (record stopped_box { process = deleted_init })
      (init_process deleted_init) none none files refl stopped_deletes refl

live-IsValid : Lifecycle.IsValid live
unfolding new_init
live-IsValid = record { released = refl; alive = λ h. refl; ended = λ h. cc; idle = refl }

init_exit_example :
    let (t, end) = check_processes serving (record { pid = 42; status = 137; now = 100 }) in
    (end ≡ returns true)
    × (t.container ≡ some (record box { process = ended live 137 100 }))
    × (t.events ≡ task_exit 0 (record { pid = 0; status = uint32 137; timestamp = 100 }) ∷ [])
    × (t.closes ≡ 0)
init_exit_example =
    init_exit serving box (record { pid = 42; status = 137; now = 100 }) refl refl live-IsValid refl
      refl tt

abbrev starting : BootWorld
starting = record {
  load_err = none;
  cleanup_err = none;
  files = files;
  container = supplied (new_init false true) group;
  io = record {
    socket_err = none;
    io_err = none;
    run_err = none;
    stdin_err = none;
    master_err = none;
    console_err = none;
    copy_err = none;
    pid_err = none;
    pid = 42;
  };
  cgroup_loads = group;
  nil_panics = true;
  unlock_err = none;
  release_status_err = none;
  release_running_err = none;
  shim_pid = 41;
}

new-IsFresh : IsFresh (new_service manager)
unfolding new_service
new-IsFresh = record {
  can_send = refl;
  not_first = refl;
  status_unlocked = refl;
  status_not_held = refl;
  running_unlocked = refl;
  running_not_held = refl;
}

boot_lem_example :
    BootEnds (new_service manager) starting no_status (boot (new_service manager) starting)
boot_lem_example =
    boot_lem (new_service manager) starting no_status new-IsFresh
      (record { deferred = refl; status = refl; release_status = refl; release_running = refl })
      refl

serving_waits : (wait serving 0).1 ≡ returns still_waiting
unfolding wait Container.find_process new_init
serving_waits = refl

wait_deadlocks_example :
    let c : Callers = record (at_rest serving) { waiting = 0 ∷ []; writer_next = true } in
    let p : Callers = record (at_rest serving) { listing = 1; writer_next = true } in
    Steps (at_rest serving) c
    × ((d : Callers) → Steps c d → Same c d)
    × Steps (at_rest serving) p
    × ((d : Callers) → Steps p d → Same p d)
wait_deadlocks_example = wait_deadlocks serving 0 serving_waits
