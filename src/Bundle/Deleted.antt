-- ===== src/Bundle/Deleted.antt =====
-- What `DeleteBundlePath` of common/bundle.go returns and leaves.
use systemd_runtime.Common.{
  is_some, if◌then◌else◌, Option, none, some, true, false, ◌≡◌, ◌≢◌, ◌⊎◌, arith,
}
use systemd_runtime.Streams.{FileError}
use systemd_runtime.Bundle.Deleting.{
  Place, Places, DeleteAnswers, DeleteError, delete_bundle_path, atomic_delete, unmount_error,
  rootfs_error, bundle_error, work_error, both_error,
}

-- A directory is there under its name or under the hidden one.
abbrev pub Remains : Place → Type 0
Remains p = (p.shown ≡ true) ⊎ (p.hidden ≡ true)

abbrev pub removed : Place
removed = record { shown = false; hidden = false }

-- What is said of each outcome: the directories after it, and the error.
abbrev pub DeletedBy : DeleteAnswers → Places → Places → Option DeleteError → Type 0
DeletedBy a p q none =
    (q.bundle ≡ removed) × (q.work ≡ (if is_some a.readlink_err then p.work else removed))
DeletedBy a p q (some (unmount_error e)) = q ≡ p
DeletedBy a p q (some (rootfs_error e)) = q ≡ p
DeletedBy a p q (some (bundle_error e)) = Remains q.bundle × (q.work ≡ removed)
DeletedBy a p q (some (work_error e)) = Remains q.work × (q.bundle ≡ removed)
DeletedBy a p q (some (both_error e e')) = Remains q.bundle × ((q.work ≡ p.work) ⊎ Remains q.work)

-- `DeleteBundlePath` by the error that it returns. None: the bundle is gone, under both names; so is the
-- working directory if the link to it could be read, and else that one is as it was. One of unmounting
-- or of the root: nothing is changed. That of the bundle: the bundle remains, and the working directory
-- is gone all the same. That of the working directory: it remains, and the bundle is gone. That of
-- both: the bundle remains, and the working directory is as it was, or remains. There is no hidden
-- copy before, and renaming a directory that is there is not refused as one that is not.
pub delete_bundle_path_lem :
    (a : DeleteAnswers) (p : Places)
    → p.bundle.hidden ≡ false
    → p.work.hidden ≡ false
    → a.bundle.rename_err ≢ some FileError.not_exist
    → a.work.rename_err ≢ some FileError.not_exist
    → DeletedBy a p (delete_bundle_path a p).0 (delete_bundle_path a p).1
unfolding delete_bundle_path atomic_delete
delete_bundle_path_lem a p hb hw rb rw = ground arith
