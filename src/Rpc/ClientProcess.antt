-- ===== src/Rpc/ClientProcess.antt =====
-- task/process.go: containerd's view of a process that was executed in a task.
use systemd_runtime.Common.{ℕ, Bool, true, false}
use systemd_runtime.Status.{Exit}
use systemd_runtime.Rpc.{Reply, Codes, map_error, map_reply, StateResponse, State, TaskService}
use systemd_runtime.Rpc.Client.{Client, target, from, status_of, state_error, exit_reply}

-- `process`: its id and its task.
pub record Process : Type 0 where
  pub id : ℕ
  pub task : Client

abbrev pub process_state : StateResponse → State
process_state r = record { status = status_of r.status; described = r.described }

module _ {S : Type 0} (k : Codes) (svc : TaskService S) where
  unfoldable pub kill : Process → S → (sig : ℕ) → (all : Bool) → S × Reply (Unit {0})
  kill p s sig all =
      from k svc (svc.kill s (record { target = target p.task p.id; signal = sig; all = false }))

  abbrev pub state_reply : S × Reply StateResponse → S × Reply State
  state_reply (s, r) = (s, map_reply process_state (map_error (state_error k) r))

  unfoldable pub state : Process → S → S × Reply State
  state p s = state_reply (svc.state s (target p.task p.id))

  unfoldable pub resize_pty : Process → S → (width height : ℕ) → S × Reply (Unit {0})
  resize_pty p s width height =
      from k svc
        (svc.resize_pty s (record { target = target p.task p.id; width = width; height = height }))

  unfoldable pub close_io : Process → S → S × Reply (Unit {0})
  close_io p s = from k svc (svc.close_io s (record { target = target p.task p.id; stdin = true }))

  abbrev pub unit_reply : S × Reply ℕ → S × Reply (Unit {0})
  unit_reply (s, r) = (s, map_reply (λ x. tt) (map_error k.from_grpc r))

  unfoldable pub start : Process → S → S × Reply (Unit {0})
  start p s = unit_reply (svc.start s (target p.task p.id))

  unfoldable pub wait : Process → S → S × Reply Exit
  wait p s = exit_reply k svc 0 (svc.wait s (target p.task p.id))

  unfoldable pub delete : Process → S → S × Reply Exit
  delete p s = from k svc (svc.delete s (target p.task p.id))

  abbrev pub found_reply : Process → S × Reply State → S × Reply Process
  found_reply p (s, r) = (s, map_reply (λ x. p) r)

  -- `Process` of task/task_service.go.
  unfoldable pub find_process : Client → S → (exec_id : ℕ) → S × Reply Process
  unfolding state
  find_process c s exec_id =
      let p : Process = record { id = exec_id; task = c } in found_reply p (state p s)
