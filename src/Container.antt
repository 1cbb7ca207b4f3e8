-- ===== src/Container.antt =====
-- runc/container.go: the container of a shim, its init process and the processes executed in it. An id is
-- a number, and 0 is the empty string. A process that a method changes is put back under its id.
pub mod Ids
pub mod Reserve
pub mod Pids
pub mod Passed
mod Examples
use systemd_runtime.Common.Maps.{lookup, insert, erase}
use systemd_runtime.Common.{
  ℕ, ◌+◌, List, [], ◌∷◌, ◌++◌, map, Option, none, some, Bool, true, false, not, ◌&&◌, ◌||◌, ◌==◌,
  ltb, if◌then◌else◌, is_some,
}
use systemd_runtime.Process.{Done, ok, panics, fails, IoWorld}
use systemd_runtime.Process.Errors.{RunError}
use systemd_runtime.Process.Errors
use systemd_runtime.Process.Init
use systemd_runtime.Process.Init.{Init}
use systemd_runtime.Process.Init.Ops
use systemd_runtime.Process.Exec
use systemd_runtime.Process.Exec.{ExecProcess}

-- `process.Process`
pub data Process : Type 0 where
  init_process : Init → Process
  exec_process : (id : ℕ) → ExecProcess → Process

-- What the field `cgroup` holds: nothing, a cgroup, or a `*cgroupsv2.Manager` that is nil, which is not
-- nil as an interface: what `LoadManager` gives with an error.
pub data Cgroup : Type 0 where
  no_cgroup group nil_manager : Cgroup

abbrev pub is_nil : Cgroup → Bool
is_nil no_cgroup = true
is_nil group = false
is_nil nil_manager = false

pub record Container : Type 0 where
  pub cgroup : Cgroup
  pub process : Init
  pub processes : List (ℕ × ExecProcess)
  pub reserved_process : List ℕ

-- `ErrNotFound`, `ErrAlreadyExists`, and errors of the processes.
pub data Error : Type 0 where
  not_found already_exists : Error
  process_error : Errors.Error → Error

pub data Found : Type 0 where
  found : Process → Found
  missing : Error → Found

-- A set of ids.
pub contains : ℕ → List ℕ → Bool
contains k [] = false
contains k (j ∷ m) = j == k || contains k m

pub without : ℕ → List ℕ → List ℕ
without k [] = []
without k (j ∷ m) = if j == k then without k m else j ∷ without k m

-- The container that `NewContainer` returns, with what it has of a cgroup.
unfoldable pub new_container : Init → Cgroup → Container
new_container p cgroup = record {
  cgroup = cgroup;
  process = p;
  processes = [];
  reserved_process = [];
}

abbrev pub pid_of : Process → ℕ
pid_of (init_process p) = p.attached.pid
pid_of (exec_process id e) = e.attached.pid

-- `ExecdProcesses` and `All`, in the order of the map here.
unfoldable pub execd_processes : Container → List Process
execd_processes c = map (λ p. exec_process p.0 p.1) c.processes

unfoldable pub all : Container → List Process
unfolding execd_processes
all c = execd_processes c ++ (init_process c.process ∷ [])

unfoldable pub pid : Container → ℕ
pid c = c.process.attached.pid

-- `Process`. The init process is there once the container is made.
unfoldable pub find_process : Container → ℕ → Found
unfolding lookup
find_process c id =
    if id == 0 then found (init_process c.process) else elim (lookup id c.processes) [
      | some e ↦ found (exec_process id e)
      | none ↦ missing not_found
    ]

-- `ReserveProcess`, and the function that it returns.
unfoldable pub reserve_process : Container → ℕ → Container × Bool
unfolding lookup contains
reserve_process c id =
    if is_some (lookup id c.processes)
    then (c, false)
    else if contains id c.reserved_process
    then (c, false)
    else (record c { reserved_process = id ∷ c.reserved_process }, true)

unfoldable pub cancel_reserve : Container → ℕ → Container
unfolding without
cancel_reserve c id = record c { reserved_process = without id c.reserved_process }

unfoldable pub process_add : Container → ℕ → ExecProcess → Container
unfolding insert without
process_add c id e = record c {
  reserved_process = without id c.reserved_process;
  processes = insert id e c.processes;
}

unfoldable pub process_remove : Container → ℕ → Container
unfolding erase
process_remove c id = record c { processes = erase id c.processes }

-- What a method of a found process leaves.
unfoldable pub put_process : Container → Process → Container
unfolding insert
put_process c (init_process p) = record c { process = p }
put_process c (exec_process id e) = record c { processes = insert id e c.processes }

-- The methods of the interface `process.Process`.
abbrev pub as_init : Init × Done → Process × Done
as_init (p, d) = (init_process p, d)

abbrev pub as_exec : ℕ → ExecProcess × Done → Process × Done
as_exec id (e, d) = (exec_process id e, d)

unfoldable pub start_process : Process → IoWorld → Process × Done
start_process (init_process p) w = as_init (Init.start p w)
start_process (exec_process id e) w = as_exec id (Exec.start e w)

-- The answers of runc and of the unmount are used by an init process only.
unfoldable pub delete_process : Process → Option RunError → Option ℕ → Process × Done
delete_process (init_process p) run u = as_init (Ops.delete p run u)
delete_process (exec_process id e) run u = as_exec id (Exec.delete e)

unfoldable pub set_exited : Process → (status now : ℕ) → Process × Done
set_exited (init_process p) status now = as_init (Ops.set_exited p status now)
set_exited (exec_process id e) status now = as_exec id (Exec.set_exited e status now)

unfoldable pub kill_process : Process → Option RunError → Done
kill_process (init_process p) run = Ops.kill p run
kill_process (exec_process id e) run = Exec.kill e run

-- How a method of the container ends: with its process, with an error, or in a panic.
pub data End : Type 0 where
  done : Process → End
  failed : Error → End
  panicked : End

abbrev pub after_method :
    Container → Process × Done → (Container → Process → Container × End) → Container × End
after_method c (p, ok) next = next (put_process c p) p
after_method c (p, fails e) next = (put_process c p, failed (process_error e))
after_method c (p, panics) next = (put_process c p, panicked)

-- The process of an id, or the error of `Process`.
abbrev pub with_process : Container → Found → (Process → Container × End) → Container × End
with_process c (missing e) next = (c, failed e)
with_process c (found p) next = next p

-- `Start`. `loads` is what the loading of the cgroup gives; its error is only logged.
unfoldable pub start : Container → (id : ℕ) → IoWorld → (loads : Cgroup) → Container × End
unfolding find_process
start c id w loads = with_process c (find_process c id) (λ p.
    after_method c (start_process p w) (λ c' p'.
      if is_nil c'.cgroup && ltb 0 (pid_of p')
      then (record c' { cgroup = loads }, done p')
      else (c', done p')))

-- `Delete`
unfoldable pub delete : Container → (id : ℕ) → Option RunError → Option ℕ → Container × End
unfolding find_process
delete c id run u = with_process c (find_process c id) (λ p.
    after_method c (delete_process p run u)
      (λ c' p'. (if id == 0 then c' else process_remove c' id, done p')))

abbrev pub exec_after : Container → (id : ℕ) → (terminal stdin : Bool) → Done → Container × End
exec_after c id terminal stdin ok = (
  process_add c id (Exec.new_exec terminal stdin),
  done (exec_process id (Exec.new_exec terminal stdin)),
)
exec_after c id terminal stdin (fails e) = (c, failed (process_error e))
exec_after c id terminal stdin panics = (c, panicked)

-- `Exec`, given the error of reading the specification, if any.
unfoldable pub exec :
    Container → (id : ℕ) → (terminal stdin : Bool) → Option Errors.Error → Container × End
exec c id terminal stdin err = exec_after c id terminal stdin (Ops.exec c.process err)

-- `Exec` behind its reservation, as shim/service.go calls it: an error gives the reservation back.
abbrev pub release_failed : (id : ℕ) → Container × End → Container × End
release_failed id (c, done p) = (c, done p)
release_failed id (c, failed e) = (cancel_reserve c id, failed e)
release_failed id (c, panicked) = (c, panicked)

unfoldable pub exec_reserved :
    Container → (id : ℕ) → (terminal stdin : Bool) → Option Errors.Error → Container × End
exec_reserved c id terminal stdin err = release_failed id (exec c id terminal stdin err)

-- `Kill`
unfoldable pub kill : Container → (id : ℕ) → Option RunError → Container × End
unfolding find_process
kill c id run = with_process c (find_process c id) (λ p. elim (kill_process p run) [
  | ok ↦ (c, done p)
  | fails e ↦ (c, failed (process_error e))
  | panics ↦ (c, panicked)
])

-- `Pause` and `Resume`
unfoldable pub pause : Container → Option RunError → Container × End
pause c run = after_method c (as_init (Ops.pause c.process run)) (λ c' p. (c', done p))

unfoldable pub resume : Container → Option RunError → Container × End
resume c run = after_method c (as_init (Ops.resume c.process run)) (λ c' p. (c', done p))

unfoldable pub any_pid : ℕ → List Process → Bool
any_pid n [] = false
any_pid n (p ∷ ps) = if pid_of p == n then true else any_pid n ps

unfoldable pub has_pid : Container → ℕ → Bool
unfolding any_pid all pid
has_pid c n = if pid c == n then true else any_pid n (all c)
