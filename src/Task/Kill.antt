-- ===== src/Task/Kill.antt =====
-- `Task.Kill` of task/task.go with SIGTERM or SIGKILL, when the shim does not run.
use systemd_runtime.Common.{
  ℕ, [], ◌∷◌, ◌++◌, none, some, true, false, is_some, ◌≡◌, ◌⊎◌, refl, arith, if◌then◌else◌,
}
use systemd_runtime.Status.{Exit, StatusManager, World, ShimStatus}
use systemd_runtime.Bundle.{guessed_exit}
use systemd_runtime.Bundle.Disabling.{disable_stopped, shown, FindsStopped}
use systemd_runtime.Conn.{Wait, get_running_service, lacks, task_is_killed}
use systemd_runtime.Conn.Deliver.{waiting_told}
use systemd_runtime.Task.{
  Task, kill, ok, panics, unit_disabled, exit_published, sigkill, sigterm, kill_bundle, act,
}

-- The exit that is reported.
abbrev pub reported : ShimStatus → ℕ → Exit
reported s now = elim s.exit [ some e ↦ e | none ↦ guessed_exit s now ]

kill_step :
    (t : Task) (sig : ℕ) (w : World) (now : ℕ) (wait : Wait) (s : ShimStatus)
    → (sig ≡ sigterm) ⊎ (sig ≡ sigkill)
    → t.mng.status_file_locked ≡ false
    → t.mng.running_file_locked ≡ false
    → FindsStopped w s
    → (mng : StatusManager) × (mng.written
        ≡ (if s.disabled then t.mng.written else record s { disabled = true } ∷ t.mng.written))
      × (kill t sig w now none wait
          ≡ kill_bundle
              (record (act t unit_disabled) { mng = mng })
              ((shown s now, false), none)
              wait)
unfolding kill
kill_step t sig w now wait s g a b f = (
  record (t.mng) {
    status_file_locked = false;
    status_held = false;
    written = if s.disabled then t.mng.written else record s { disabled = true } ∷ t.mng.written;
  },
  refl,
  ground (arith, disable_stopped t.mng w s now a b f),
)

-- `Kill` with SIGTERM or SIGKILL of a task whose shim does not run, where the bundle is not disabled
-- or its exit is known: it returns without an error; the unit is disabled and the exit published, the
-- recorded one, or a made-up one if there is none; the disabled status is written unless it was
-- found; and from then on a running service is refused with `ErrTaskIsKilled`. The unit can be
-- disabled, the status is read and written, and the manager has no lock before.
kill_stopped :
    (t : Task) (sig : ℕ) (w : World) (now : ℕ) (wait : Wait) (s : ShimStatus)
    → (sig ≡ sigterm) ⊎ (sig ≡ sigkill)
    → t.mng.status_file_locked ≡ false
    → t.mng.running_file_locked ≡ false
    → FindsStopped w s
    → (s.disabled ≡ false) ⊎ (is_some s.exit ≡ true)
    → let (t', end) = kill t sig w now none wait in
      (end ≡ ok)
      × (t'.actions ≡ (t.actions ++ (unit_disabled ∷ [])) ++ (exit_published (reported s now) ∷ []))
      × (get_running_service t'.conn ≡ lacks task_is_killed)
      × (t'.mng.written
          ≡ (if s.disabled then t.mng.written else record s { disabled = true } ∷ t.mng.written))
unfolding kill_bundle act
kill_stopped t sig w now wait s g a b f known =
    let (mng, written, step) = kill_step t sig w now wait s g a b f in
    rw step (
      ground
        (arith, waiting_told t.conn (record { task_pid = 0 }) (some (reported s now)), written))

-- `Kill` with SIGTERM or SIGKILL of a task whose shim does not run, where the bundle is disabled and no
-- exit is recorded, follows a nil pointer. The unit can be disabled, the status is read, and the
-- manager has no lock before.
kill_panics :
    (t : Task) (sig : ℕ) (w : World) (now : ℕ) (wait : Wait) (s : ShimStatus)
    → (sig ≡ sigterm) ⊎ (sig ≡ sigkill)
    → t.mng.status_file_locked ≡ false
    → t.mng.running_file_locked ≡ false
    → FindsStopped w s
    → s.disabled ≡ true
    → s.exit ≡ none
    → (kill t sig w now none wait).1 ≡ panics
unfolding kill_bundle
kill_panics t sig w now wait s g a b f d e =
    let (mng, written, step) = kill_step t sig w now wait s g a b f in rw step (ground arith)
