-- ===== src/Shim/Waiting.antt =====
-- The lock of shim/ctnholder.go under the calls of shim/service.go. It is a `sync.RWMutex`: while a
-- writer waits for it, no reader gets it, and only one writer at a time is next. `Wait` has it for reading until its process exits, and `Pids`
-- takes it for reading twice.
use systemd_runtime.Container.{Cgroup}
use systemd_runtime.Common.{
  ℕ, ◌+◌, ◌<◌, true, false, List, [], ◌∷◌, ◌++◌, Option, Bool, ◌≡◌, ◌≢◌, refl, ◌∙◌, subst, ◌⊎◌, inl,
  inr, arith,
}
use systemd_runtime.Process.{IoWorld}
use systemd_runtime.Process.Errors.{RunError}
use systemd_runtime.Process.Errors
use systemd_runtime.Status.{World}
use systemd_runtime.Shim.{Service, returns}
use systemd_runtime.Shim.Calls.{start, exec, kill, delete, shutdown, wait, still_waiting}
use systemd_runtime.Shim.Exits.{Exited, check_processes, cleanup}

-- Who has the lock or waits for it: the processes that calls of `Wait` wait for, the calls of `Pids`
-- that have the lock once, and whether a writer is next. Any other call holds it within its one step.
pub record Callers : Type 0 where
  pub service : Service
  pub waiting : List ℕ
  pub listing : ℕ
  pub writer_next : Bool

abbrev Readable : Callers → Type 0
Readable c = c.writer_next ≡ false

-- A writer gets the lock when no reader has it.
abbrev Writable : Callers → Type 0
Writable c = (c.writer_next ≡ true) × (c.waiting ≡ []) × (c.listing ≡ 0)

abbrev then_in : Callers → Service → Callers
then_in c s = record c { service = s }

abbrev after_write : Callers → Service → Callers
after_write c s = record c { service = s; writer_next = false }

pub data Step : Callers → Callers → Type 0 where
  starts :
      (c : Callers) (id : ℕ) (w : IoWorld) (loads : Cgroup)
      → Readable c
      → Step c (then_in c (start c.service id w loads).0)
  execs :
      (c : Callers) (id : ℕ) (terminal stdin : Bool) (err : Option Errors.Error)
      → Readable c
      → Step c (then_in c (exec c.service id terminal stdin err).0)
  kills :
      (c : Callers) (id sig : ℕ) (run : Option RunError)
      → Readable c
      → Step c (then_in c (kill c.service id sig run).0)
  checks :
      (c : Callers) (e : Exited) → Readable c → Step c (then_in c (check_processes c.service e).0)
  deletes_process :
      (c : Callers) (id : ℕ) (run : Option RunError) (u : Option ℕ)
      → id ≢ 0
      → Readable c
      → Step c (then_in c (delete c.service id run u).0)
  -- Any other call for reading, and for writing, whatever it does.
  reads : (c : Callers) (t : Service) → Readable c → Step c (then_in c t)
  writes : (c : Callers) (t : Service) → Writable c → Step c (after_write c t)
  waits :
      (c : Callers) (id : ℕ)
      → Readable c
      → (wait c.service id).1 ≡ returns still_waiting
      → Step c (record c { waiting = id ∷ c.waiting })
  wakes :
      (c : Callers) (before after : List ℕ) (id : ℕ)
      → c.waiting ≡ before ++ (id ∷ after)
      → (wait c.service id).1 ≢ returns still_waiting
      → Step c (record c { waiting = before ++ after })
  lists : (c : Callers) → Readable c → Step c (record c { listing = c.listing + 1 })
  lists_again :
      (c : Callers) (n : ℕ) → c.listing ≡ n + 1 → Readable c → Step c (record c { listing = n })
  comes : (c : Callers) → Readable c → Step c (record c { writer_next = true })
  deletes :
      (c : Callers) (run : Option RunError) (u : Option ℕ)
      → Writable c
      → Step c (after_write c (delete c.service 0 run u).0)
  shuts_down : (c : Callers) → Writable c → Step c (after_write c (shutdown c.service).0)
  cleans :
      (c : Callers) (run : Option RunError) (u : Option ℕ) (w : World)
      → Writable c
      → Step c (after_write c (cleanup c.service run u w).0)

pub data Steps : Callers → Callers → Type 0 where
  rests : {c : Callers} → Steps c c
  steps : {c d e : Callers} → Step c d → Steps d e → Steps c e

-- Every process of the list has not exited.
abbrev pub AllWait : Service → List ℕ → Type 0
AllWait s [] = Unit
AllWait s (id ∷ ids) = ((wait s id).1 ≡ returns still_waiting) × AllWait s ids

AllWait-mem :
    (s : Service) (before after : List ℕ) (id : ℕ)
    → AllWait s (before ++ (id ∷ after))
    → (wait s id).1 ≡ returns still_waiting
AllWait-mem s [] after id (h, hs) = h
AllWait-mem s (j ∷ before) after id (h, hs) = AllWait-mem s before after id hs

-- A writer waits for readers that wait for what needs the lock for reading.
pub record IsStuck (c : Callers) : Type 0 where
  pub queued : c.writer_next ≡ true
  pub all_wait : AllWait c.service c.waiting
  pub held : (0 < c.listing) ⊎ (c.waiting ≢ [])

-- The same service, the same readers, and still a writer.
abbrev pub Same : Callers → Callers → Type 0
Same c d =
    (d.service ≡ c.service)
    × (d.waiting ≡ c.waiting)
    × (d.listing ≡ c.listing)
    × (d.writer_next ≡ c.writer_next)

IsStuck-Readable : (c : Callers) → IsStuck c → Readable c → ⊥
IsStuck-Readable c v r = grind (arith, v.queued)

IsStuck-Writable : (c : Callers) → IsStuck c → Writable c → ⊥
IsStuck-Writable c v (q, w, l) = elim v.held [ inl h ↦ omega arith | inr h ↦ h w ]

Step-Same : {c d : Callers} → Step c d → IsStuck c → Same c d
Step-Same (starts c id w loads r) v = absurd (IsStuck-Readable c v r)
Step-Same (execs c id t i err r) v = absurd (IsStuck-Readable c v r)
Step-Same (kills c id sig run r) v = absurd (IsStuck-Readable c v r)
Step-Same (checks c e r) v = absurd (IsStuck-Readable c v r)
Step-Same (deletes_process c id run u ne r) v = absurd (IsStuck-Readable c v r)
Step-Same (reads c t r) v = absurd (IsStuck-Readable c v r)
Step-Same (writes c t w) v = absurd (IsStuck-Writable c v w)
Step-Same (waits c id r h) v = absurd (IsStuck-Readable c v r)
Step-Same (wakes c before after id e h) v =
    absurd (h (AllWait-mem c.service before after id (subst (AllWait c.service) e v.all_wait)))
Step-Same (lists c r) v = absurd (IsStuck-Readable c v r)
Step-Same (lists_again c n e r) v = absurd (IsStuck-Readable c v r)
Step-Same (comes c r) v = absurd (IsStuck-Readable c v r)
Step-Same (deletes c run u w) v = absurd (IsStuck-Writable c v w)
Step-Same (shuts_down c w) v = absurd (IsStuck-Writable c v w)
Step-Same (cleans c run u x w) v = absurd (IsStuck-Writable c v w)

Same-IsStuck : (c d : Callers) → Same c d → IsStuck c → IsStuck d
Same-IsStuck c d (s, w, l, n) v = record {
  queued = n ∙ v.queued;
  all_wait = rw (s, w) v.all_wait;
  held = rw (l, w) v.held;
}

Steps-Same : {c d : Callers} → Steps c d → IsStuck c → Same c d
Steps-Same rests v = (refl, refl, refl, refl)
Steps-Same {c} (steps {d = d} st rest) v =
    let (s, w, l, n) = Step-Same st v in
    let (s', w', l', n') = Steps-Same rest (Same-IsStuck c d (s, w, l, n) v) in
    (s' ∙ s, w' ∙ w, l' ∙ l, n' ∙ n)

-- A shim that no call holds.
abbrev pub at_rest : Service → Callers
at_rest s = record { service = s; waiting = []; listing = 0; writer_next = false }

stuck : (c : Callers) → IsStuck c → (d : Callers) → Steps c d → Same c d
stuck c v d st = Steps-Same st v

-- Two orders of calls from which the lock never comes free, whatever calls and exits follow: if
-- `Wait` waits for a process, and then `Shutdown`, `Delete` of the container or `cleanup` comes for
-- the lock; and if one of these comes between the two times that `Pids` takes it. From then on the
-- service stays as it is: no exit of a process is recorded, no call starts, ends or kills a process,
-- the container is not deleted, and what holds the lock goes on to hold it.
pub wait_deadlocks :
    (s : Service) (id : ℕ)
    → (wait s id).1 ≡ returns still_waiting
    → let c : Callers = record (at_rest s) { waiting = id ∷ []; writer_next = true } in
      let p : Callers = record (at_rest s) { listing = 1; writer_next = true } in
      Steps (at_rest s) c
      × ((d : Callers) → Steps c d → Same c d)
      × Steps (at_rest s) p
      × ((d : Callers) → Steps p d → Same p d)
wait_deadlocks s id h =
    let c : Callers = record (at_rest s) { waiting = id ∷ []; writer_next = true } in
    let p : Callers = record (at_rest s) { listing = 1; writer_next = true } in
    (
      steps (waits (at_rest s) id refl h)
          (steps (comes (record (at_rest s) { waiting = id ∷ [] }) refl) rests),
      stuck c (record { queued = refl; all_wait = (h, tt); held = inr cc }),
      steps (lists (at_rest s) refl)
          (steps (comes (record (at_rest s) { listing = 1 }) refl) rests),
      stuck p (record { queued = refl; all_wait = tt; held = inl (omega arith) }),
    )
