-- ===== src/Shim/Ends.antt =====
-- The end of a shim's container in shim/service.go and shim/shim.go: its deletion by the shim itself
-- (`cleanup`) or by a call of `Delete`, and what is known of its exit from then on.
use systemd_runtime.Common.{ℕ, ◌∷◌, Option, none, some, false, if◌then◌else◌, ◌≡◌, arith}
use systemd_runtime.Process.{StateName}
use systemd_runtime.Process.Errors.{RunError}
use systemd_runtime.Status.{
  Exit, ShimStatus, World, read, lock_for_update_status, update_status, lock_status_file,
  unlock_status_file,
}
use systemd_runtime.Status
use systemd_runtime.Flock.{file_lock, acquired}
use systemd_runtime.Container
use systemd_runtime.Container.{Container, Process, done}
use systemd_runtime.Shim.{Service, returns, panics, exit_of, perform_delete, put}
use systemd_runtime.Shim.Calls.{state, delete, shutdown}
use systemd_runtime.Shim.Exits.{cleanup, write_exit_status}

-- The files of a status that can be locked, read and written.
pub record Writable (w : World) (status : ShimStatus) : Type 0 where
  pub lockable : file_lock w.tries ≡ acquired
  pub status_read : w.found ≡ read status
  pub writable : w.write_err ≡ none
  pub unlockable : w.unlock_err ≡ none

exit_written_lem :
    (s : Service) (exit : Exit) (w : World) (status : ShimStatus)
    → Writable w status
    → s.mng.status_file_locked ≡ false
    → write_exit_status s exit w
      ≡ Status.returns
          (record (s.mng) {
            status_file_locked = false;
            status_held = false;
            written = record status { exit = some exit } ∷ s.mng.written;
          })
          none
unfolding write_exit_status lock_for_update_status update_status lock_status_file unlock_status_file
exit_written_lem s exit w status f a = ground arith

-- `cleanup` of a container that can be deleted, with a status file that can be locked, read and
-- written, returns, without an event, a container or the lock of the status file. The exit of the
-- process that it deleted is kept and written to the status file, and `State` tells it from then on,
-- with pid 0. If the shim is disabled, `Delete` answers with that exit, and `Shutdown` succeeds. If it
-- is not, `cleanup` closes the channel of the events, and both would close it again, which panics.
pub cleanup_recorded :
    (s : Service) (c c' : Container) (p : Process) (run : Option RunError) (u : Option ℕ)
    (w : World) (status : ShimStatus)
    → s.container ≡ some c
    → Container.delete c 0 run u ≡ (c', done p)
    → s.closes ≡ 0
    → s.mng.status_file_locked ≡ false
    → Writable w status
    → let (t, end) = cleanup s run u w in
      (end ≡ returns tt)
      × (t.container ≡ none)
      × (t.exit_status ≡ some (exit_of p))
      × (t.mng.written ≡ record status { exit = some (exit_of p) } ∷ s.mng.written)
      × (t.mng.status_file_locked ≡ false)
      × (t.events ≡ s.events)
      × (t.closes ≡ (if s.disabled then 0 else 1))
      × ((state t 0).1
          ≡ returns (record { status = StateName.stopped; exit = record (exit_of p) { pid = 0 } }))
      × ((run' : Option RunError) (u' : Option ℕ)
          → (delete t 0 run' u').1 ≡ (if s.disabled then returns (exit_of p) else panics))
      × ((shutdown t).1 ≡ (if s.disabled then returns tt else panics))
unfolding cleanup perform_delete state delete shutdown
cleanup_recorded s c c' p run u w status e d one a f =
    ground (arith, exit_written_lem (put s c') (exit_of p) w status f a)

-- If a call of `Delete` deletes the container before `cleanup` does, while no exit is known, it answers
-- with the exit of the init process, but keeps no exit. `cleanup` then does nothing: no exit is
-- written and the channel stays as it is, and a later call of `State` or `Delete` panics.
pub deleted_first_panics :
    (s : Service) (c c' : Container) (p : Process) (run : Option RunError) (u : Option ℕ)
    (w : World)
    → s.container ≡ some c
    → Container.delete c 0 run u ≡ (c', done p)
    → s.exit_status ≡ none
    → let (t, end) = delete s 0 run u in
      (end ≡ returns (exit_of p))
      × (cleanup t run u w ≡ (t, returns tt))
      × (t.mng ≡ s.mng)
      × (t.closes ≡ s.closes)
      × ((state t 0).1 ≡ panics)
      × ((run' : Option RunError) (u' : Option ℕ) → (delete t 0 run' u').1 ≡ panics)
unfolding cleanup perform_delete state delete
deleted_first_panics s c c' p run u w e d unknown = ground arith
