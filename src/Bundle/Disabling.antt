-- ===== src/Bundle/Disabling.antt =====
-- What `Bundle.ShimStatus` and `Bundle.Disable` of bundle/bundle.go return and write.
use systemd_runtime.Common.{
  ℕ, ◌∷◌, none, some, true, false, is_some, ◌≡◌, ◌⊎◌, refl, arith, ◌||◌, if◌then◌else◌,
}
use systemd_runtime.Flock.{file_lock, acquired, unlocked, file_can_lock}
use systemd_runtime.Status.{
  ShimStatus, StatusManager, World, returns, read, lock_for_task_manager, update_status,
  lock_status_file, unlock_status_file, is_shim_running,
}
use systemd_runtime.Status.Locks.{IsHonest, Ends}
use systemd_runtime.Bundle.{disable, shim_status, guessed_exit}

-- The status that `ShimStatus` returns without an error has an exit if it is disabled. On every
-- return the status file is unlocked and the flag honest. The flag is honest before, and unlocking
-- succeeds.
pub shim_status_lem :
    (mng : StatusManager) (w : World) (now : ℕ)
    → IsHonest mng
    → w.unlock_err ≡ none
    → Ends mng
        (λ mng' res.
          (mng'.status_file_locked ≡ false)
          × IsHonest mng'
          × (res.2 ≡ none → res.0.disabled ≡ true → is_some res.0.exit ≡ true))
        (shim_status mng w now)
unfolding shim_status lock_for_task_manager update_status lock_status_file unlock_status_file
    is_shim_running
shim_status_lem mng w now h u = ground arith

-- `Disable` without an error finds the bundle disabled, writes nothing and returns what it found; or
-- it writes the status that it found with the bundle disabled, and returns a status that is not
-- disabled and that lacks an exit only if the shim runs. The status file is unlocked on every
-- return, the flag honest before and after. Unlocking is taken to succeed, and the status to be
-- readable.
pub disable_lem :
    (mng : StatusManager) (w : World) (now : ℕ) (s : ShimStatus)
    → IsHonest mng
    → w.unlock_err ≡ none
    → w.found ≡ read s
    → Ends mng
        (λ mng' res.
          (mng'.status_file_locked ≡ false)
          × IsHonest mng'
          × (res.1 ≡ none
              → ((s.disabled ≡ true) × (mng'.written ≡ mng.written) × (res.0.0 ≡ s))
                ⊎ ((s.disabled ≡ false)
                    × (mng'.written ≡ record s { disabled = true } ∷ mng.written)
                    × (res.0.0.disabled ≡ false)
                    × (is_some res.0.0.exit ≡ false → res.0.1 ≡ true))))
        (disable mng w now)
unfolding disable lock_for_task_manager update_status lock_status_file unlock_status_file
    is_shim_running
disable_lem mng w now s h u f = ground arith

-- The status lock is had, the status is `s`, and no shim runs: neither the flag nor the kernel says so.
pub record FindsStopped (w : World) (s : ShimStatus) : Type 0 where
  pub lockable : file_lock w.tries ≡ acquired
  pub status_read : w.found ≡ read s
  pub probed : w.probe ≡ unlocked
  pub writable : w.write_err ≡ none
  pub unlockable : w.unlock_err ≡ none

-- What `Disable` returns when no shim runs.
abbrev pub shown : ShimStatus → ℕ → ShimStatus
shown s now =
    if s.disabled || is_some s.exit then s else record s { exit = some (guessed_exit s now) }

-- `Disable` when no shim runs: the returned status, and what it writes.
pub disable_stopped :
    (mng : StatusManager) (w : World) (s : ShimStatus) (now : ℕ)
    → mng.status_file_locked ≡ false
    → mng.running_file_locked ≡ false
    → FindsStopped w s
    → disable mng w now
      ≡ returns
          (record mng {
            status_file_locked = false;
            status_held = false;
            written =
                if s.disabled then mng.written else record s { disabled = true } ∷ mng.written;
          })
          ((shown s now, false), none)
unfolding disable lock_for_task_manager update_status lock_status_file unlock_status_file
    is_shim_running file_can_lock
disable_stopped mng w s now a b f = ground arith

-- Two calls of `Disable` on a bundle whose shim is gone and left no exit, the second reading what
-- the first wrote: the first returns an exit, and the second returns none, without an error and
-- with the shim not running.
second_disable_no_exit :
    (mng : StatusManager) (w1 w2 : World) (s : ShimStatus) (now1 now2 : ℕ)
    → mng.status_file_locked ≡ false
    → mng.running_file_locked ≡ false
    → s.disabled ≡ false
    → s.exit ≡ none
    → FindsStopped w1 s
    → FindsStopped w2 (record s { disabled = true })
    → (mng1 mng2 : StatusManager) × (disable mng w1 now1
        ≡ returns mng1 ((record s { exit = some (guessed_exit s now1) }, false), none))
      × (mng1.written ≡ record s { disabled = true } ∷ mng.written)
      × (disable mng1 w2 now2 ≡ returns mng2 ((record s { disabled = true }, false), none))
      × (mng2.written ≡ mng1.written)
unfolding disable lock_for_task_manager update_status lock_status_file unlock_status_file
    is_shim_running file_can_lock
second_disable_no_exit mng w1 w2 s now1 now2 a b d e f1 f2 = (
  record mng {
    status_file_locked = false;
    status_held = false;
    written = record s { disabled = true } ∷ mng.written;
  },
  record mng {
    status_file_locked = false;
    status_held = false;
    written = record s { disabled = true } ∷ mng.written;
  },
  ground arith,
  refl,
  ground arith,
  refl,
)
