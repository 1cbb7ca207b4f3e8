-- ===== src/Process/Exec/Lifecycle.antt =====
-- The lives of an executed process (process/exec.go, process/exec_state.go).
use systemd_runtime.Common.{
  ◌<◌, ℕ, Option, none, some, true, false, is_some, ◌≡◌, ◌≢◌, refl, arith, ◌⊎◌,
}
use systemd_runtime.Process.{Done, ok, panics, fails, IoWorld, prepare_io}
use systemd_runtime.Process.Errors.{RunError, run_error, check_kill_error}
use systemd_runtime.Process.Exec.{
  created, running, stopped, deleted, ExecProcess, start, delete, kill, set_exited,
}

pub data Call : Type 0 where
  starts : IoWorld → Call
  deletes : Call
  exits : (status now : ℕ) → Call

pub step : ExecProcess → Call → ExecProcess × Done
step e (starts w) = start e w
step e deletes = delete e
step e (exits status now) = set_exited e status now

-- An executed process whose waiters are released exactly if it has exited.
pub record IsValid (e : ExecProcess) : Type 0 where
  pub released : e.waiters_released ≡ is_some e.exited
  pub alive : (e.state ≡ created) ⊎ (e.state ≡ running) → e.exited ≡ none
  pub ended : e.state ≡ stopped → is_some e.exited ≡ true

-- Every method keeps the invariant and does not panic, but for a start that runc refuses.
step-IsValid_exec :
    (e : ExecProcess) (c : Call)
    → IsValid e
    → ((w : IoWorld) → c ≡ starts w → w.run_err ≡ none)
    → IsValid (step e c).0 × ((step e c).1 ≢ panics)
unfolding step start delete set_exited
step-IsValid_exec e (starts w) v h = let runs : w.run_err ≡ none = h w refl in ground arith
step-IsValid_exec e deletes v h = ground arith
step-IsValid_exec e (exits status now) v h = ground arith

-- A process that waits for its start: runc refuses it. The start returns runc's error and leaves the
-- process created with its waiters released; the next refused start panics, and so does an exit.
refused_start_panics :
    (e : ExecProcess) (w w' : IoWorld) (x y : RunError) (status now : ℕ)
    → e.state ≡ created
    → e.waiters_released ≡ false
    → (prepare_io e.terminal w e.attached).1 ≡ none
    → w.run_err ≡ some x
    → let (q, d) = start e w in
      (d ≡ fails (run_error x))
      × (q.state ≡ created)
      × (q.waiters_released ≡ true)
      × ((set_exited q status now).1 ≡ panics)
      × ((prepare_io q.terminal w' q.attached).1 ≡ none
          → w'.run_err ≡ some y
          → (start q w').1 ≡ panics)
unfolding start set_exited
refused_start_panics e w w' x y status now c f p r = ground arith

-- A kill succeeds only for a process that is not deleted, has a pid and has not exited, and then the
-- kernel gave no error.
kill-ok :
    (e : ExecProcess) (kill_err : Option RunError)
    → kill e kill_err ≡ ok
    → (e.state ≢ deleted) × (e.exited ≡ none) × (0 < e.attached.pid) × (kill_err ≡ none)
unfolding kill check_kill_error
kill-ok e kill_err h = ground arith
