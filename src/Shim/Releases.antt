-- ===== src/Shim/Releases.antt =====
-- How the parts of `init` of shim/shim.go end, and what locks they leave.
use systemd_runtime.Container.{Cgroup, nil_manager, is_nil}
use systemd_runtime.Common.{
  ℕ, [], ◌∷◌, ◌++◌, Option, is_some, ◌&&◌, ltb, none, some, Bool, true, false, if◌then◌else◌, ◌≡◌,
  ◌≢◌, refl, arith, inl, inr, ◌⊎◌, Option-cases, Bool-cases,
}
use systemd_runtime.Process.{IoWorld}
use systemd_runtime.Process
use systemd_runtime.Process.Init
use systemd_runtime.Process.Init.{Init, transition_from}
use systemd_runtime.Status.{
  ShimStatus, StatusManager, update_status, unlock_status_file, release_locks, lock_status_file,
  unlock_running_file,
}
use systemd_runtime.Container
use mathlib.Core.List.{append_assoc}
use systemd_runtime.Bundle.{common_cleanup}
use systemd_runtime.Container.{new_container, done, failed, panicked}
use systemd_runtime.Shim.{
  Service, Ended, returns, refused, panics, blocks, put, task_create, task_start, task_resumed,
}
use systemd_runtime.Shim.Boot.{
  BootWorld, Supplied, supplied, supplier_panics, not_supplied, start, create_container, or_release,
  boot_locked, status_updated, with_mng,
}

Init-start-ne-panics : (p : Init) (w : IoWorld) → (Init.start p w).1 ≢ Process.panics
unfolding Init.start transition_from
Init-start-ne-panics p w = ground arith

-- The container whose init process was started, if its start succeeds.
abbrev pub started_container : Container.Container → IoWorld → Cgroup → Option Container.Container
started_container c w loads = elim (Init.start c.process w).1 [
  | Process.ok ↦ some (record c {
    process = (Init.start c.process w).0;
    cgroup =
        if is_nil c.cgroup && ltb 0 (Init.start c.process w).0.attached.pid
        then loads
        else c.cgroup;
  })
  | _ ↦ none
]

-- Whether there is a container with a nil manager of cgroups.
abbrev pub holds_nil : Option Container.Container → Bool
holds_nil none = false
holds_nil (some c) = elim c.cgroup [
  | Container.no_cgroup ↦ false
  | Container.group ↦ false
  | nil_manager ↦ true
]

-- The start of the container touches no lock. While events can be sent, it panics only if it uses a
-- nil manager of cgroups whose methods panic.
abbrev StartEnds :
    Service → Container.Container → IoWorld → Cgroup → Bool → Service × Ended (Unit {0}) → Type 0
StartEnds s c w loads np (t, returns a) =
    (t.mng ≡ s.mng)
    × (t.started ≡ true)
    × (t.events ≡ s.events ++ ((if s.first_started then task_start else task_resumed) ∷ []))
    × (is_some t.container ≡ true)
    × (t.container ≡ started_container c w loads)
    × ((np && holds_nil t.container) ≡ false)
StartEnds s c w loads np (t, refused e) = t.mng ≡ s.mng
StartEnds s c w loads np (t, panics) = (np && holds_nil (started_container c w loads)) ≡ true
StartEnds s c w loads np (t, blocks) = ⊥

start_ends :
    (s : Service) (c : Container.Container) (w : IoWorld) (loads : Cgroup) (np : Bool)
    → s.container ≡ some c
    → s.closes ≡ 0
    → StartEnds s c w loads np (start s w loads np)
unfolding start Container.start Container.find_process Container.start_process Container.put_process
start_ends s c w loads np h d = ground (arith, Init-start-ne-panics c.process w)

-- A shim that has not been started.
pub record IsFresh (s : Service) : Type 0 where
  pub can_send : s.closes ≡ 0
  pub not_first : s.first_started ≡ false
  pub status_unlocked : s.mng.status_file_locked ≡ false
  pub status_not_held : s.mng.status_held ≡ false
  pub running_unlocked : s.mng.running_file_locked ≡ false
  pub running_not_held : s.mng.running_held ≡ false

-- Every unlock succeeds.
pub record Unlocks (w : BootWorld) : Type 0 where
  pub deferred : w.files.unlock_err ≡ none
  pub status : w.unlock_err ≡ none
  pub release_status : w.release_status_err ≡ none
  pub release_running : w.release_running_err ≡ none

-- The container that a start of what the supplier returns leaves, if it succeeds.
abbrev pub booted : BootWorld → Option Container.Container
booted w = elim w.container [
  | supplied p cg ↦ started_container (new_container p cg) w.io w.cgroup_loads
  | supplier_panics ↦ none
  | not_supplied e ↦ none
]

-- The supplier panics, or the container is started and its nil manager of cgroups panics.
abbrev pub panics_by : BootWorld → Bool
panics_by w = elim w.container [
  | supplied p cg ↦ w.nil_panics && holds_nil (booted w)
  | supplier_panics ↦ true
  | not_supplied e ↦ false
]

abbrev pub BootEnds : Service → BootWorld → ShimStatus → Service × Ended (Unit {0}) → Type 0
BootEnds s w status (t, returns a) =
    (t.mng.status_held ≡ false)
    × (t.mng.running_held ≡ true)
    × (t.mng.written ≡ record status { pid = w.shim_pid; created = true } ∷ s.mng.written)
    × (t.started ≡ true)
    × (t.events
        ≡ s.events
          ++ (if status.created then task_resumed ∷ [] else task_create ∷ (task_start ∷ [])))
    × (is_some t.container ≡ true)
    × (t.container ≡ booted w)
    × (panics_by w ≡ false)
BootEnds s w status (t, refused e) = (t.mng.status_held ≡ false) × (t.mng.running_held ≡ false)
BootEnds s w status (t, panics) = panics_by w ≡ true
BootEnds s w status (t, blocks) = t.mng ≡ s.mng

-- The same for a start that waits for no lock.
abbrev pub Finishes : Service → BootWorld → ShimStatus → Service × Ended (Unit {0}) → Type 0
Finishes s w status (t, blocks) = ⊥
Finishes s w status (t, panics) = BootEnds s w status (t, panics)
Finishes s w status (t, returns a) = BootEnds s w status (t, returns a)
Finishes s w status (t, refused e) = BootEnds s w status (t, refused e)

pub Finishes-BootEnds :
    (s : Service) (w : BootWorld) (status : ShimStatus) (mng : StatusManager)
    (r : Service × Ended (Unit {0}))
    → mng.written ≡ s.mng.written
    → Finishes (with_mng s mng) w status r
    → BootEnds s w status r
Finishes-BootEnds s w status mng (t, returns a) e h = ground arith
Finishes-BootEnds s w status mng (t, refused x) e h = h
Finishes-BootEnds s w status mng (t, panics) e h = h
Finishes-BootEnds s w status mng (t, blocks) e h = absurd h

-- The locks that the manager has behind `LockForStartShim`.
pub record HasLocks (mng : StatusManager) : Type 0 where
  pub status_locked : mng.status_file_locked ≡ true
  pub status_is_held : mng.status_held ≡ true
  pub running_locked : mng.running_file_locked ≡ true
  pub running_is_held : mng.running_held ≡ true

-- The end of `init` from `UpdateStatus` on.
abbrev UpdatedEnds :
    Service → Container.Container → BootWorld → ShimStatus → Service × Ended (Unit {0}) → Type 0
UpdatedEnds s c w status (t, returns a) =
    (t.mng.status_held ≡ false)
    × (t.mng.running_held ≡ true)
    × (t.mng.written ≡ status ∷ s.mng.written)
    × (t.started ≡ true)
    × (t.events ≡ s.events ++ ((if s.first_started then task_start else task_resumed) ∷ []))
    × (is_some t.container ≡ true)
    × (t.container ≡ started_container c w.io w.cgroup_loads)
    × ((w.nil_panics && holds_nil t.container) ≡ false)
UpdatedEnds s c w status (t, refused e) = (t.mng.status_held ≡ false) × (t.mng.running_held ≡ false)
UpdatedEnds s c w status (t, panics) =
    (w.nil_panics && holds_nil (started_container c w.io w.cgroup_loads)) ≡ true
UpdatedEnds s c w status (t, blocks) = ⊥

started_ends :
    (s : Service) (c : Container.Container) (w : BootWorld) (status : ShimStatus)
    (mng : StatusManager) (r : Service × Ended (Unit {0}))
    → StartEnds (with_mng s mng) c w.io w.cgroup_loads w.nil_panics r
    → mng.status_file_locked ≡ false
    → mng.status_held ≡ false
    → mng.running_file_locked ≡ true
    → mng.running_held ≡ true
    → mng.written ≡ status ∷ s.mng.written
    → Unlocks w
    → UpdatedEnds s c w status (or_release w r)
unfolding release_locks unlock_status_file unlock_running_file
started_ends s c w status mng (t, returns a) h a1 a2 a3 a4 a5 u = ground arith
started_ends s c w status mng (t, refused e) h a1 a2 a3 a4 a5 u = ground arith
started_ends s c w status mng (t, panics) h a1 a2 a3 a4 a5 u = h
started_ends s c w status mng (t, blocks) h a1 a2 a3 a4 a5 u = absurd h

updated_ends :
    (s : Service) (c : Container.Container) (w : BootWorld) (status : ShimStatus)
    → s.container ≡ some c
    → s.closes ≡ 0
    → HasLocks s.mng
    → Unlocks w
    → UpdatedEnds s c w status
        (or_release w (status_updated w s (update_status s.mng w.files status)))
unfolding update_status lock_status_file unlock_status_file release_locks unlock_running_file
updated_ends s c w status h d l u = elim (Option-cases w.files.write_err) [
  | inr (e, bad) ↦ ground arith
  | inl fine ↦
      let mng = record (s.mng) {
        status_file_locked = false;
        status_held = false;
        written = status ∷ s.mng.written;
      } in
      let r = start (with_mng s mng) w.io w.cgroup_loads w.nil_panics in
      ground (
        arith,
        started_ends s c w status mng r
            (start_ends (with_mng s mng) c w.io w.cgroup_loads w.nil_panics h d),
      )
]

Supplied-cases :
    (x : Supplied)
    → ((p : Init) × (b : Cgroup) × (x ≡ supplied p b))
      ⊎ ((x ≡ supplier_panics) ⊎ ((e : ℕ) × (x ≡ not_supplied e)))
Supplied-cases (supplied p b) = inl (p, b, refl)
Supplied-cases supplier_panics = inr (inl refl)
Supplied-cases (not_supplied e) = inr (inr (e, refl))

-- `init` with both locks, from `Cleanup` on.
pub locked_ends :
    (s : Service) (w : BootWorld) (status : ShimStatus)
    → s.closes ≡ 0
    → s.first_started ≡ false
    → HasLocks s.mng
    → Unlocks w
    → Finishes s w status (or_release w (boot_locked w s status))
unfolding create_container release_locks unlock_status_file unlock_running_file common_cleanup
locked_ends s w status d f l u = elim (Option-cases w.cleanup_err) [
  | inr (e, bad) ↦ ground arith
  | inl fine ↦ elim (Supplied-cases w.container) [
    | inr (inr (e, bad)) ↦ ground arith
    | inr (inl bad) ↦ ground arith
    | inl (p, cgroup, good) ↦
        let status' = record status { pid = w.shim_pid; created = true } in
        let t = put s (new_container p cgroup) in
        elim (Bool-cases status.created) [
          | inl old ↦ ground (arith, updated_ends t (new_container p cgroup) w status' refl d l u)
          | inr new ↦ ground (
            arith,
            updated_ends
                (record t { first_started = true; events = t.events ++ (task_create ∷ []) })
                (new_container p cgroup) w status' refl d l u,
            append_assoc s.events (task_create ∷ []) (task_start ∷ []),
          )
        ]
  ]
]
