-- ===== src/Rpc/Examples.antt =====
-- Calls of containerd to the shim's service.
use systemd_runtime.Common.{[], ◌∷◌, none, some, true, false, ◌≡◌, refl}
use systemd_runtime.Process.{IoWorld}
use systemd_runtime.Process.Init.{Init, new_init, running}
use systemd_runtime.Process.Init.Lifecycle
use systemd_runtime.Process.Init.Ops
use systemd_runtime.Process.Errors.{check_kill_error}
use systemd_runtime.Status.{StatusManager}
use systemd_runtime.Container
use systemd_runtime.Container.{Container, group}
use systemd_runtime.Shim.{Service, task_exit, task_paused, uint32}
use systemd_runtime.Shim.Exits.{Exited, check_processes}
use systemd_runtime.Shim.Calls
use systemd_runtime.Rpc.{Codes, not_found, returned, State}
use systemd_runtime.Rpc.Server.{task_service}
use systemd_runtime.Rpc.Server
use systemd_runtime.Rpc.Client.{Client}
use systemd_runtime.Rpc.Client
use systemd_runtime.Rpc.Service.{Answers, shim_service}
use systemd_runtime.Rpc.Remote.{ProcessCalls, process_calls}
use systemd_runtime.Rpc.Killed.{ShowsExit, killed_exits}

abbrev codes : Codes
codes = record { to_grpc = λ e. e; carry = λ e. e; from_grpc = λ e. e; valid_id = λ n. true }

abbrev io : IoWorld
io = record {
  socket_err = none;
  io_err = none;
  run_err = none;
  stdin_err = none;
  master_err = none;
  console_err = none;
  copy_err = none;
  pid_err = none;
  pid = 42;
}

abbrev answers : Answers
answers = record {
  io = io;
  cgroup_loads = group;
  nil_panics = true;
  run = none;
  unmount = none;
  exec_err = none;
  close_err = none;
  ps = 42 ∷ [];
  shim_pid = 41;
  error_of = λ e. not_found;
  id = 5;
  bundle = 6;
  stdin = λ n. 0;
  stdout = λ n. 7;
  stderr = λ n. 8;
  terminal = λ n. false;
  resize_err = none;
  checkpoint_err = none;
  update_err = none;
  stats_err = none;
  statistics = 9;
}

abbrev manager : StatusManager
manager = record {
  status_file_locked = false;
  running_file_locked = false;
  status_held = false;
  running_held = false;
  written = [];
}

abbrev live : Init
live = record (new_init false true) {
  state = running;
  attached = record { io = true; console = false; closers = 0; pid = 42 };
}

abbrev box : Container
box = record { cgroup = group; process = live; processes = []; reserved_process = [] }

abbrev serving : Service
serving = record {
  container = some box;
  deleted = false;
  started = true;
  disabled = false;
  first_started = true;
  exit_status = none;
  events = [];
  closes = 0;
  mng = manager;
}

abbrev client : Client
client = record { task_pid = 42; id = 5 }

process_calls_example :
    ProcessCalls codes (shim_service answers) (record { id = 7; task = client }) serving
process_calls_example =
    process_calls codes (shim_service answers) (record { id = 7; task = client }) serving

live-IsValid : Lifecycle.IsValid live
unfolding new_init
live-IsValid = record { released = refl; alive = λ h. refl; ended = λ h. cc; idle = refl }

kill_succeeds :
    (Client.kill codes (task_service codes (shim_service answers)) client serving 9 false).1
    ≡ returned tt
unfolding Client.kill task_service Server.kill shim_service Calls.kill Container.kill
    Container.find_process Container.kill_process Ops.kill check_kill_error
kill_succeeds = refl

killed_exits_example :
    let e : Exited = record { pid = 42; status = 137; now = 100 } in
    let k = Client.kill codes (task_service codes (shim_service answers)) client serving 9 false in
    let t = (check_processes k.0 e).0 in
    let u = Calls.kill_ends (check_processes (Calls.kill_sent serving 0 none).0 e).0 0 9 in
    let exit = task_exit 0 (record { pid = 0; status = uint32 137; timestamp = 100 }) in
    ((t.events ≡ exit ∷ [])
      × (k.0.disabled ≡ true)
      × (st : State) × ((Client.state codes (task_service codes (shim_service answers)) client t).1
          ≡ returned st)
      × ShowsExit st e)
    × ((u.events ≡ task_paused ∷ [])
        × (u.disabled ≡ true)
        × (st : State) × ((Client.state codes
              (task_service codes (shim_service answers))
              client
              u).1
            ≡ returned st)
        × ShowsExit st e)
killed_exits_example =
    killed_exits codes answers client serving box 9 false
      (record { pid = 42; status = 137; now = 100 }) refl refl live-IsValid refl refl tt refl
      kill_succeeds
