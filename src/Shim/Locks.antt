-- ===== src/Shim/Locks.antt =====
-- The locks that the start of a shim leaves (`init` of shim/shim.go).
use systemd_runtime.Common.{
  Option, none, some, true, false, ◌≡◌, refl, arith, inl, inr, Option-cases,
}
use systemd_runtime.Status.{
  ShimStatus, StatusManager, World, Result, read, lock_for_start_shim, update_status,
  unlock_status_file, release_locks, lock_status_file, lock_running_file, unlock_running_file,
}
use systemd_runtime.Status
use systemd_runtime.Flock
use systemd_runtime.Shim.{Service}
use systemd_runtime.Shim.Boot.{BootWorld, boot, or_release, boot_locked, boot_status, with_mng}
use systemd_runtime.Shim.Releases.{IsFresh, Unlocks, BootEnds, Finishes-BootEnds, locked_ends}

abbrev both_locked : StatusManager → StatusManager
both_locked mng = record mng {
  status_file_locked = true;
  status_held = true;
  running_file_locked = true;
  running_held = true;
}

-- What `LockForStartShim` gives a fresh shim.
abbrev LockEnds : StatusManager → ShimStatus → Result (ShimStatus × Option Flock.Error) → Type 0
LockEnds mng status (Status.returns m (st, none)) = (m ≡ both_locked mng) × (st ≡ status)
LockEnds mng status (Status.returns m (st, some e)) =
    (m.status_held ≡ false) × (m.running_held ≡ false)
LockEnds mng status (Status.blocks m) = m ≡ mng

lock_ends :
    (s : Service) (w : World) (status : ShimStatus)
    → IsFresh s
    → w.unlock_err ≡ none
    → w.found ≡ read status
    → LockEnds s.mng status (lock_for_start_shim s.mng w)
unfolding lock_for_start_shim lock_status_file lock_running_file unlock_status_file
lock_ends s w status f u r = ground arith

locked_status :
    (s : Service) (w : BootWorld) (status : ShimStatus)
    (r : Result (ShimStatus × Option Flock.Error))
    → IsFresh s
    → Unlocks w
    → LockEnds s.mng status r
    → BootEnds s w status (boot_status w s r)
locked_status s w status (Status.returns m (st, none)) f u (em, es) =
    rw (em, es)
      (Finishes-BootEnds s w status (both_locked s.mng)
        (or_release w (boot_locked w (with_mng s (both_locked s.mng)) status)) refl
        (locked_ends (with_mng s (both_locked s.mng)) w status f.can_send f.not_first
          (record {
            status_locked = refl;
            status_is_held = refl;
            running_locked = refl;
            running_is_held = refl;
          })
          u))
locked_status s w status (Status.returns m (st, some e)) f u h = h
locked_status s w status (Status.blocks m) f u h = h

-- The start of a fresh shim whose status files can be read and unlocked: if it has to wait for a lock it
-- has taken none. If it succeeds, the lock of the status file is free and the shim keeps the lock that
-- says it runs; the last status written is the one it read, marked created, with the shim's pid; the
-- holder has the container that the supplier returned, with its init process as a start without an
-- error leaves it; and the events are its creation and its start, or its resumption if the status
-- was marked created. If it fails, the shim holds none of both locks. It panics only if the supplier
-- does, or if the container is started and what it holds as its cgroup is a nil manager whose
-- methods panic; where one of these is the case it does not succeed.
pub boot_lem :
    (s : Service) (w : BootWorld) (status : ShimStatus)
    → IsFresh s
    → Unlocks w
    → w.files.found ≡ read status
    → BootEnds s w status (boot s w)
unfolding boot
boot_lem s w status f u r = elim (Option-cases w.load_err) [
  | inr (e, bad) ↦ ground arith
  | inl fine ↦
      rw (fine, boot)
        (locked_status s w status (lock_for_start_shim s.mng w.files) f u
          (lock_ends s w.files status f u.deferred r))
]
