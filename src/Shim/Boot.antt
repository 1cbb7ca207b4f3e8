-- ===== src/Shim/Boot.antt =====
-- shim/shim.go: how a shim starts its container.
use systemd_runtime.Common.{ℕ, Option, none, some, Bool, true, false, if◌then◌else◌}
use systemd_runtime.Process.{IoWorld}
use systemd_runtime.Process.Init.{Init}
use systemd_runtime.Status.{
  ShimStatus, StatusManager, World, Result, lock_for_start_shim, update_status, unlock_status_file,
  release_locks,
}
use systemd_runtime.Status
use systemd_runtime.Flock
use systemd_runtime.Bundle.{common_cleanup}
use systemd_runtime.Container
use systemd_runtime.Container.{Container, Cgroup, no_cgroup, group, nil_manager, new_container}
use systemd_runtime.Shim.{
  Service, Ended, returns, refused, panics, blocks, with_container, put, sending, after,
  task_create, task_start, task_resumed, status_error, supplier_error,
}

-- What the supplier of the container does: it returns the init process and what it has of a cgroup, or
-- an error, or it panics, as `NewContainer` of runc/container.go does for options of another type.
pub data Supplied : Type 0 where
  supplied : Init → Cgroup → Supplied
  supplier_panics : Supplied
  not_supplied : ℕ → Supplied

-- The world of a start: the error of the options file for `LoadOpts` and for `Cleanup`, the status
-- files, the container, what runc answers to its start, what the loading of its cgroup
-- gives and whether a method of a nil manager of cgroups panics, and the answers to writing the
-- status, to unlocking its file, and to both unlocks of `ReleaseLocks`.
pub record BootWorld : Type 0 where
  pub load_err : Option Flock.Error
  pub cleanup_err : Option Flock.Error
  pub files : World
  pub container : Supplied
  pub io : IoWorld
  pub cgroup_loads : Cgroup
  pub nil_panics : Bool
  pub unlock_err : Option Flock.Error
  pub release_status_err : Option Flock.Error
  pub release_running_err : Option Flock.Error
  pub shim_pid : ℕ

-- `createContainer`
unfoldable pub create_container : Service → Supplied → Service × Ended (Unit {0})
create_container s (supplied p cgroup) = (put s (new_container p cgroup), returns tt)
create_container s supplier_panics = (s, panics)
create_container s (not_supplied e) = (s, refused (supplier_error e))

-- The part of `start` about the cgroup: a nil manager is used too. The errors are only logged, and the
-- controllers and the monitor of memory are not part of it.
abbrev pub controlling :
    Service
    → Option Container
    → (nil_panics : Bool) → (Service → Service × Ended (Unit {0}))
    → Service × Ended (Unit {0})
controlling s none nil_panics next = next s
controlling s (some c) nil_panics next = elim c.cgroup [
  | no_cgroup ↦ next s
  | group ↦ next s
  | nil_manager ↦ if nil_panics then (s, panics) else next s
]

-- `start`, with the events that the order of the flags gives.
unfoldable pub start :
    Service → IoWorld → (loads : Cgroup) → (nil_panics : Bool) → Service × Ended (Unit {0})
start s w loads nil_panics = with_container s s.container (λ c.
    after s (Container.start c 0 w loads) (λ t p. controlling t t.container nil_panics (λ u.
      sending (record u { started = true }) (if u.first_started then task_start else task_resumed)
        (λ u'. (u', returns tt)))))

-- The deferred `ReleaseLocks` of an error.
abbrev pub released : BootWorld → Service → Service
released w s = record s { mng = (release_locks s.mng w.release_status_err w.release_running_err).0 }

abbrev pub or_release : BootWorld → Service × Ended (Unit {0}) → Service × Ended (Unit {0})
or_release w (s, returns a) = (s, returns a)
or_release w (s, refused e) = (released w s, refused e)
or_release w (s, panics) = (s, panics)
or_release w (s, blocks) = (s, blocks)

abbrev pub with_mng : Service → StatusManager → Service
with_mng s mng = record s { mng = mng }

-- `init` behind `UpdateStatus`.
abbrev pub status_updated :
    BootWorld → Service → Result (Option Flock.Error) → Service × Ended (Unit {0})
status_updated w s (Status.blocks mng) = (with_mng s mng, blocks)
status_updated w s (Status.returns mng (some e)) = (with_mng s mng, refused (status_error e))
status_updated w s (Status.returns mng none) =
    let (mng', err) = unlock_status_file mng w.unlock_err in
    elim err [
      | some e ↦ (with_mng s mng', refused (status_error e))
      | none ↦ start (with_mng s mng') w.io w.cgroup_loads w.nil_panics
    ]

-- `init` behind `createContainer`.
abbrev pub container_created :
    BootWorld → ShimStatus → Service × Ended (Unit {0}) → Service × Ended (Unit {0})
container_created w status (s, returns a) =
    let update = λ (t : Service).
      status_updated w t
        (update_status t.mng w.files (record status { pid = w.shim_pid; created = true })) in
    if status.created
    then update s
    else sending (record s { first_started = true }) task_create update
container_created w status (s, refused e) = (s, refused e)
container_created w status (s, panics) = (s, panics)
container_created w status (s, blocks) = (s, blocks)

abbrev pub boot_locked : BootWorld → Service → ShimStatus → Service × Ended (Unit {0})
boot_locked w s status = elim (common_cleanup false w.cleanup_err 0).2 [
  | some e ↦ (s, refused (status_error e))
  | none ↦ container_created w status (create_container s w.container)
]

abbrev pub boot_status :
    BootWorld → Service → Result (ShimStatus × Option Flock.Error) → Service × Ended (Unit {0})
boot_status w s (Status.blocks mng) = (with_mng s mng, blocks)
boot_status w s (Status.returns mng (status, some e)) = (with_mng s mng, refused (status_error e))
boot_status w s (Status.returns mng (status, none)) =
    or_release w (boot_locked w (with_mng s mng) status)

-- `init`
unfoldable pub boot : Service → BootWorld → Service × Ended (Unit {0})
boot s w = elim w.load_err [
  | some e ↦ (s, refused (status_error e))
  | none ↦ boot_status w s (lock_for_start_shim s.mng w.files)
]
