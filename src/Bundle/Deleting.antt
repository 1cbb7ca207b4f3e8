-- ===== src/Bundle/Deleting.antt =====
-- common/bundle.go: the deletion of a bundle and of its working directory. A directory that is deleted is
-- first renamed to a hidden name beside it.
use systemd_runtime.Common.{Option, none, some, Bool, true, false, if◌then◌else◌}
use systemd_runtime.Streams.{FileError, is_not_exist}

-- A directory: whether it is there under its name, and under the hidden one.
pub record Place : Type 0 where
  pub shown : Bool
  pub hidden : Bool

-- The answers to the calls for one directory; `rename_err` is that for a directory that is there.
pub record Deletion : Type 0 where
  pub rename_err : Option FileError
  pub remove_err : Option FileError

-- `os.Rename` to the hidden name.
rename : Place → Option FileError → Place × Option FileError
rename p err =
    if p.shown
    then (elim err [
      | some e ↦ (p, some e)
      | none ↦ (record { shown = false; hidden = true }, none)
    ])
    else (p, some FileError.not_exist)

hidden_removed : Deletion → Place × Option FileError → Place × Option FileError
hidden_removed a (p, some e) = if is_not_exist (some e) then (p, none) else (p, some e)
hidden_removed a (p, none) = elim a.remove_err [
  | some e ↦ (p, some e)
  | none ↦ (record p { hidden = false }, none)
]

-- `atomicDelete`
unfoldable pub atomic_delete : Deletion → Place → Place × Option FileError
unfolding rename hidden_removed
atomic_delete a p = hidden_removed a (rename p a.rename_err)

pub record Places : Type 0 where
  pub bundle : Place
  pub work : Place

-- The error of `DeleteBundlePath`: one that is passed on, or the one that names both directories with
-- what the second deletion returned.
pub data DeleteError : Type 0 where
  unmount_error rootfs_error bundle_error work_error : FileError → DeleteError
  both_error : FileError → Option FileError → DeleteError

pub record DeleteAnswers : Type 0 where
  pub readlink_err : Option FileError
  pub unmount_err : Option FileError
  pub rootfs_err : Option FileError
  pub bundle : Deletion
  pub work : Deletion

-- The second deletion, behind one that failed.
after_failed : DeleteAnswers → Places → FileError → Places × Option DeleteError
after_failed a p e = elim a.readlink_err [
  | some r ↦ (p, some (both_error e none))
  | none ↦
      let (w, err2) = atomic_delete a.work p.work in
      elim err2 [
        | none ↦ (record p { work = w }, some (bundle_error e))
        | some e2 ↦ (record p { work = w }, some (both_error e (some e2)))
      ]
]

-- The second deletion, behind one that succeeded.
after_deleted : DeleteAnswers → Places → Places × Option DeleteError
after_deleted a p = elim a.readlink_err [
  | some r ↦ (p, none)
  | none ↦
      let (w, err2) = atomic_delete a.work p.work in
      elim err2 [
        | none ↦ (record p { work = w }, none)
        | some e2 ↦ (record p { work = w }, some (work_error e2))
      ]
]

bundle_deleted : DeleteAnswers → Places → Place × Option FileError → Places × Option DeleteError
unfolding after_failed after_deleted
bundle_deleted a p (b, some e) = after_failed a (record p { bundle = b }) e
bundle_deleted a p (b, none) = after_deleted a (record p { bundle = b })

-- From the removal of the root on; a root that is not there is no error.
rootfs_removed : DeleteAnswers → Places → Option FileError → Places × Option DeleteError
unfolding bundle_deleted atomic_delete
rootfs_removed a p none = bundle_deleted a p (atomic_delete a.bundle p.bundle)
rootfs_removed a p (some e) =
    if is_not_exist (some e)
    then bundle_deleted a p (atomic_delete a.bundle p.bundle)
    else (p, some (rootfs_error e))

-- `DeleteBundlePath`
unfoldable pub delete_bundle_path : DeleteAnswers → Places → Places × Option DeleteError
unfolding rootfs_removed
delete_bundle_path a p = elim a.unmount_err [
  | some e ↦ (p, some (unmount_error e))
  | none ↦ rootfs_removed a p a.rootfs_err
]
