-- ===== src/Process/Init/Lifecycle.antt =====
-- The lives of an init process (process/init_state.go): every sequence of its methods.
use systemd_runtime.Common.{
  ℕ, List, [], ◌∷◌, Option, none, Bool, true, false, is_some, ◌≡◌, ◌≢◌, refl, arith,
}
use systemd_runtime.Process.{Done, panics, fails, IoWorld}
use systemd_runtime.Process.Errors.{RunError, Error}
use systemd_runtime.Process.Init.{
  InitState, created, created_checkpoint, running, paused, stopped, deleted, Init, start,
  transition_from,
}
use systemd_runtime.Process.Init.Ops.{delete, pause, resume, set_exited}

-- The calls that change an init process, with the answers of the world.
pub data Call : Type 0 where
  starts : IoWorld → Call
  deletes : Option RunError → Option ℕ → Call
  pauses resumes : Option RunError → Call
  exits : (status now : ℕ) → Call

unfoldable pub step : Init → Call → Init × Done
step p (starts w) = start p w
step p (deletes run u) = delete p run u
step p (pauses run) = pause p run
step p (resumes run) = resume p run
step p (exits status now) = set_exited p status now

pub run : Init → List Call → Init
run p [] = p
run p (c ∷ cs) = run (step p c).0 cs

-- Whether the state is one of a process that has not ended.
abbrev pub is_alive : InitState → Bool
is_alive stopped = false
is_alive deleted = false
is_alive _ = true

-- The waiters are released exactly with the exit; a live process has not exited, and a stopped one
-- has; nothing is pausing between two calls.
pub record IsValid (p : Init) : Type 0 where
  pub released : p.waiters_released ≡ is_some p.exited
  pub alive : is_alive p.state ≡ true → p.exited ≡ none
  pub ended : p.state ≡ stopped → is_some p.exited ≡ true
  pub idle : p.pausing ≡ false

-- Every method keeps the invariant, and none panics.
step-IsValid : (p : Init) (c : Call) → IsValid p → IsValid (step p c).0 × ((step p c).1 ≢ panics)
unfolding step start delete pause resume set_exited transition_from
step-IsValid p (starts w) v = ground arith
step-IsValid p (deletes run u) v = ground arith
step-IsValid p (pauses run) v = ground arith
step-IsValid p (resumes run) v = ground arith
step-IsValid p (exits status now) v = ground arith

-- The moves between states.
infix 40 ◌⟶◌
pub data ◌⟶◌ : InitState → InitState → Type 0 where
  stays : {a : InitState} → a ⟶ a
  runs : created ⟶ running
  restores : created_checkpoint ⟶ running
  parks : running ⟶ paused
  unparks : paused ⟶ running
  stops : {a : InitState} → is_alive a ≡ true → a ⟶ stopped
  drops : created ⟶ deleted
  drops_checkpoint : created_checkpoint ⟶ deleted
  removes : stopped ⟶ deleted

-- Every method, whatever the world answers, leaves the state or makes one of the moves: a running
-- or paused process is deleted only through `stopped`, and no process comes back from `stopped` or
-- `deleted`.
step-⟶ : (p : Init) (c : Call) → p.state ⟶ (step p c).0.state
unfolding step start delete pause resume set_exited transition_from
step-⟶ p c =
    grind (arith, stays, runs, restores, parks, unparks, stops, drops, drops_checkpoint, removes)

-- A method that returns an error leaves the state and the exit as they were.
failed_keeps :
    (p : Init) (c : Call) {e : Error}
    → (step p c).1 ≡ fails e
    → ((step p c).0.state ≡ p.state) × ((step p c).0.exited ≡ p.exited)
unfolding step start delete pause resume set_exited transition_from
failed_keeps p (starts w) h = ground arith
failed_keeps p (deletes run u) h = ground arith
failed_keeps p (pauses run) h = ground arith
failed_keeps p (resumes run) h = ground arith
failed_keeps p (exits status now) h = ground arith

-- What an exit leaves behind: the first one stays, and a process that has ended stays ended.
pub record Kept (p q : Init) : Type 0 where
  pub same_exit : is_some p.exited ≡ true → (q.exited ≡ p.exited) × (q.status ≡ p.status)
  pub same_end : is_alive p.state ≡ false → is_alive q.state ≡ false

step-Kept : (p : Init) (c : Call) → IsValid p → Kept p (step p c).0
unfolding step start delete pause resume set_exited transition_from
step-Kept p (starts w) v = ground arith
step-Kept p (deletes run u) v = ground arith
step-Kept p (pauses run) v = ground arith
step-Kept p (resumes run) v = ground arith
step-Kept p (exits status now) v = ground arith

Kept-trans : {p q r : Init} → Kept p q → Kept q r → Kept p r
Kept-trans a b = ground arith

-- In every life of a valid process the invariant holds at the end, the first recorded exit and its
-- status are never changed, and an ended process stays ended.
pub run-Kept : (p : Init) (cs : List Call) → IsValid p → IsValid (run p cs) × Kept p (run p cs)
unfolding run
run-Kept p [] v = (v, record { same_exit = λ h. (refl, refl); same_end = λ h. h })
run-Kept p (c ∷ cs) v =
    let (w, k) = run-Kept (step p c).0 cs (step-IsValid p c v).0 in
    (w, Kept-trans (step-Kept p c v) k)
