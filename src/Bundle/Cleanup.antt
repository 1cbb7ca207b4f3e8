-- ===== src/Bundle/Cleanup.antt =====
-- `Bundle.Cleanup` of bundle/bundle.go.
use systemd_runtime.Common.{ℕ, [], ◌∷◌, none, some, false, not, ◌≡◌, arith, ◌&&◌, if◌then◌else◌}
use systemd_runtime.Flock.{file_lock, acquired, file_nb_lock, eagain}
use systemd_runtime.Status.{
  ShimStatus, StatusManager, World, read, lock_for_cleanup, lock_status_file, unlock_status_file,
  lock_running_file, release_locks, unlock_running_file,
}
use systemd_runtime.Status.Locks.{IsHonest, Ends}
use systemd_runtime.Bundle.{
  cleanup, publish_task_paused, runc_delete, unmount_rootfs, common_cleanup,
}

-- With the lock on the status file, `Cleanup` acts only if it gets that of the running shim too: if
-- another process has it (`EAGAIN`), nothing is done and no error is returned. If it gets it, the
-- container is deleted in runc and its root unmounted, and before that the pause is published exactly
-- if the container was created and the bundle is not disabled. Both flags are clear on every return.
-- The status and the options file can be read, the flag for the status file is honest before and
-- that for the running file clear, and unlocking succeeds.
cleanup_lem :
    (mng : StatusManager) (w : World) (s : ShimStatus) (now : ℕ)
    → IsHonest mng
    → mng.running_file_locked ≡ false
    → w.unlock_err ≡ none
    → w.found ≡ read s
    → Ends mng
        (λ mng' res.
          (mng'.status_file_locked ≡ false)
          × (mng'.running_file_locked ≡ false)
          × (w.running ≡ some eagain → file_lock w.tries ≡ acquired → res ≡ ([], none))
          × (w.running ≡ none
              → file_lock w.tries ≡ acquired
              → res ≡ (
                (if s.created && not s.disabled
                    then publish_task_paused ∷ runc_delete ∷ unmount_rootfs ∷ []
                    else runc_delete ∷ unmount_rootfs ∷ []),
                none,
              )))
        (cleanup mng w none none now)
unfolding cleanup lock_for_cleanup lock_status_file unlock_status_file lock_running_file
    release_locks unlock_running_file file_nb_lock common_cleanup
cleanup_lem mng w s now h f u e = ground arith
