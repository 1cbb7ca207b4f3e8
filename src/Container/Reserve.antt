-- ===== src/Container/Reserve.antt =====
-- What each method of runc/container.go does to the reserved ids and the processes, and the
-- interleavings of the calls.
use systemd_runtime.Container.{Cgroup, is_nil}
use systemd_runtime.Common.Maps.{lookup, lookup-insert}
use systemd_runtime.Common.{
  ℕ, Option, none, some, Bool, true, false, ◌==◌, ◌≡◌, ◌≢◌, refl, ◌&&◌, ltb, arith, inl, inr,
  Bool-cases,
}
use systemd_runtime.Process.{ok, fails, panics, Done, IoWorld}
use systemd_runtime.Process.Errors
use systemd_runtime.Process.Errors.{RunError}
use systemd_runtime.Process.Init.Ops
use systemd_runtime.Process.Init.{Init}
use systemd_runtime.Process.Exec.{ExecProcess, new_exec}
use systemd_runtime.Container.{
  Container, Process, init_process, exec_process, End, done, failed, panicked, Found, Error,
  with_process, pid_of, exec_after, found, missing, new_container, contains, find_process,
  reserve_process, cancel_reserve, process_add, put_process, start_process, delete_process,
  set_exited, start, delete, exec, exec_reserved, release_failed, pause, resume, after_method,
  as_init,
}
use systemd_runtime.Container.Ids.{
  IsValid, put_found, exec-IsValid, reserve-IsValid, cancel-IsValid, remove-IsValid,
  put_init-IsValid, contains-without,
}

-- A process that stands in the container, whatever became of it.
abbrev pub Known : Container → Process → Type 0
Known c (init_process p) = Unit
Known c (exec_process id e) = (q : ExecProcess) × (lookup id c.processes ≡ some q)

put-IsValid : (c : Container) (p : Process) → Known c p → IsValid c → IsValid (put_process c p)
put-IsValid c (init_process p) k v = put_init-IsValid c p v
put-IsValid c (exec_process id e) k v = put_found c id e k.1 v

find-Known : (c : Container) (id : ℕ) (p : Process) → find_process c id ≡ found p → Known c p
unfolding find_process
find-Known c id (init_process p) h = tt
find-Known c id (exec_process j e) h = (e, ground arith)

start-Known :
    (c : Container) (p : Process) (w : IoWorld) → Known c p → Known c (start_process p w).0
unfolding start_process
start-Known c (init_process p) w k = tt
start-Known c (exec_process id e) w k = k

delete-Known :
    (c : Container) (p : Process) (run : Option RunError) (u : Option ℕ)
    → Known c p
    → Known c (delete_process p run u).0
unfolding delete_process
delete-Known c (init_process p) run u k = tt
delete-Known c (exec_process id e) run u k = k

exit-Known :
    (c : Container) (p : Process) (status now : ℕ) → Known c p → Known c (set_exited p status now).0
unfolding set_exited
exit-Known c (init_process p) status now k = tt
exit-Known c (exec_process id e) status now k = k

after-IsValid :
    (c : Container) (r : Process × Done) (next : Container → Process → Container × End)
    → Known c r.0
    → IsValid c
    → ((c' : Container) (p : Process) → IsValid c' → IsValid (next c' p).0)
    → IsValid (after_method c r next).0
after-IsValid c (p, ok) next k v keep = keep (put_process c p) p (put-IsValid c p k v)
after-IsValid c (p, fails e) next k v keep = put-IsValid c p k v
after-IsValid c (p, panics) next k v keep = put-IsValid c p k v

with-IsValid :
    (c : Container) (x : Found) (next : Process → Container × End)
    → IsValid c
    → ((p : Process) → x ≡ found p → IsValid (next p).0)
    → IsValid (with_process c x next).0
with-IsValid c (missing e) next v keep = v
with-IsValid c (found p) next v keep = keep p refl

cgroup-IsValid : (c : Container) (b : Cgroup) → IsValid c → IsValid (record c { cgroup = b })
cgroup-IsValid c b v = record { apart = v.apart }

start-IsValid :
    (c : Container) (id : ℕ) (w : IoWorld) (loads : Cgroup)
    → IsValid c
    → IsValid (start c id w loads).0
unfolding start
start-IsValid c id w loads v = with-IsValid c (find_process c id) _ v (λ p eq.
    after-IsValid c (start_process p w) _ (start-Known c p w (find-Known c id p eq)) v (λ c' p' v'.
      elim (Bool-cases (is_nil c'.cgroup && ltb 0 (pid_of p'))) [
        | inl t ↦ rw t (cgroup-IsValid c' loads v')
        | inr f ↦ rw f v'
      ]))

delete-IsValid :
    (c : Container) (id : ℕ) (run : Option RunError) (u : Option ℕ)
    → IsValid c
    → IsValid (delete c id run u).0
unfolding delete
delete-IsValid c id run u v = with-IsValid c (find_process c id) _ v (λ p eq.
    after-IsValid c (delete_process p run u) _ (delete-Known c p run u (find-Known c id p eq)) v
      (λ c' p' v'. elim (Bool-cases (id == 0)) [
        | inl t ↦ rw t v'
        | inr f ↦ rw f (remove-IsValid c' id v')
      ]))

failed-IsValid : (id : ℕ) (r : Container × End) → IsValid r.0 → IsValid (release_failed id r).0
failed-IsValid id (c, done p) v = v
failed-IsValid id (c, failed e) v = cancel-IsValid c id v
failed-IsValid id (c, panicked) v = v

add-IsValid :
    (c : Container) (id : ℕ) (terminal stdin : Bool) (err : Option Errors.Error)
    → IsValid c
    → IsValid (exec c id terminal stdin err).0
unfolding exec
add-IsValid c id terminal stdin err v =
    elim (Ops.exec c.process err) as (λ d. IsValid (exec_after c id terminal stdin d).0) [
      | ok ↦ exec-IsValid c id (new_exec terminal stdin) v
      | fails e ↦ v
      | panics ↦ v
    ]

-- What the calls of a shim and the exits of processes do to its container.
pub data Step : Container → Container → Type 0 where
  reserves : (c : Container) (id : ℕ) → Step c (reserve_process c id).0
  execs :
      (c : Container) (id : ℕ) (terminal stdin : Bool) (err : Option Errors.Error)
      → contains id c.reserved_process ≡ true
      → Step c (exec_reserved c id terminal stdin err).0
  starts : (c : Container) (id : ℕ) (w : IoWorld) (loads : Cgroup) → Step c (start c id w loads).0
  deletes :
      (c : Container) (id : ℕ) (run : Option RunError) (u : Option ℕ) → Step c (delete c id run u).0
  exits :
      (c : Container) (id : ℕ) (p : Process) (status now : ℕ)
      → find_process c id ≡ found p
      → Step c (put_process c (set_exited p status now).0)
  pauses : (c : Container) (run : Option RunError) → Step c (pause c run).0
  resumes : (c : Container) (run : Option RunError) → Step c (resume c run).0

pub data Reach (p : Init) : Container → Type 0 where
  created : (cgroup : Cgroup) → Reach p (new_container p cgroup)
  next : {c d : Container} → Reach p c → Step c d → Reach p d

Step-IsValid : {c d : Container} → Step c d → IsValid c → IsValid d
unfolding exec_reserved pause resume
Step-IsValid (reserves c id) v = reserve-IsValid c id v
Step-IsValid (execs c id terminal stdin err h) v =
    failed-IsValid id (exec c id terminal stdin err) (add-IsValid c id terminal stdin err v)
Step-IsValid (starts c id w loads) v = start-IsValid c id w loads v
Step-IsValid (deletes c id run u) v = delete-IsValid c id run u v
Step-IsValid (exits c id p status now h) v =
    put-IsValid c (set_exited p status now).0 (exit-Known c p status now (find-Known c id p h)) v
Step-IsValid (pauses c run) v =
    after-IsValid c (as_init (Ops.pause c.process run)) _ tt v (λ c' p v'. v')
Step-IsValid (resumes c run) v =
    after-IsValid c (as_init (Ops.resume c.process run)) _ tt v (λ c' p v'. v')

new-IsValid : (p : Init) (cgroup : Cgroup) → IsValid (new_container p cgroup)
unfolding new_container contains
new-IsValid p c = record { apart = λ k r. cc }

pub Reach-IsValid_ids : {p : Init} {c : Container} → Reach p c → IsValid c
Reach-IsValid_ids {p} (created cgroup) = new-IsValid p cgroup
Reach-IsValid_ids (next r st) = Step-IsValid st (Reach-IsValid_ids r)

exec-ne-panics : (p : Init) (err : Option Errors.Error) → Ops.exec p err ≢ panics
unfolding Ops.exec
exec-ne-panics p err = ground arith

-- What follows a reservation, for each end of the work.
abbrev Exclusive : Container → (id : ℕ) → ExecProcess → Container × End → Type 0
Exclusive c id new (c', end) =
    (contains id c'.reserved_process ≡ false)
    × ((k : ℕ) → k ≢ id → lookup k c'.processes ≡ lookup k c.processes)
    × ((q : Process) → end ≡ done q → lookup id c'.processes ≡ some new)
    × ((e : Error)
        → end ≡ failed e
        → (c'.processes ≡ c.processes) × ((reserve_process c' id).1 ≡ true))

after-Exclusive :
    (c : Container) (id : ℕ) (terminal stdin : Bool) (d : Done)
    → d ≢ panics
    → lookup id c.processes ≡ none
    → Exclusive c id
        (new_exec terminal stdin)
        (release_failed id (exec_after c id terminal stdin d))
unfolding process_add cancel_reserve reserve_process
after-Exclusive c id terminal stdin ok ne fresh = (
  ground (arith, contains-without id id c.reserved_process),
  λ k other. ground (arith, lookup-insert k id (new_exec terminal stdin) c.processes),
  λ q e. ground (arith, lookup-insert id id (new_exec terminal stdin) c.processes),
  λ x e. cc,
)
after-Exclusive c id terminal stdin (fails x) ne fresh = (
  ground (arith, contains-without id id c.reserved_process),
  λ k other. refl,
  λ q e. cc,
  λ y e. (refl, ground (arith, contains-without id id c.reserved_process)),
)
after-Exclusive c id terminal stdin panics ne fresh = absurd (ne refl)

-- In every interleaving of the calls of a shim: an id is reserved only once, and while it is, no
-- process has it. So the `Exec` that has a reservation overwrites no process: if it succeeds, its id
-- has the new process, the other ids have what they had, and the reservation is gone; if it fails,
-- the processes stay, and the id can be reserved again.
pub reserved_exec :
    {p : Init} {c : Container} (id : ℕ) (terminal stdin : Bool) (err : Option Errors.Error)
    → Reach p c
    → contains id c.reserved_process ≡ true
    → let (c', end) = exec_reserved c id terminal stdin err in
      ((reserve_process c id).1 ≡ false)
      × (lookup id c.processes ≡ none)
      × (contains id c'.reserved_process ≡ false)
      × ((k : ℕ) → k ≢ id → lookup k c'.processes ≡ lookup k c.processes)
      × ((q : Process) → end ≡ done q → lookup id c'.processes ≡ some (new_exec terminal stdin))
      × ((e : Error)
          → end ≡ failed e
          → (c'.processes ≡ c.processes) × ((reserve_process c' id).1 ≡ true))
unfolding exec_reserved exec
reserved_exec {c} id terminal stdin err r h =
    let fresh = (Reach-IsValid_ids r).apart id h in
    let (gone, others, added, kept) =
      after-Exclusive c id terminal stdin (Ops.exec c.process err) (exec-ne-panics c.process err)
        fresh in
    (unfold reserve_process in ground arith, fresh, gone, others, added, kept)
