-- ===== src/Holder.antt =====
-- shim/ctnholder.go: the place of the shim's container, under a lock for readers and one writer. A step
-- that waits for the lock is not taken until the lock allows it.
pub mod Guard
mod Examples
use systemd_runtime.Common.{ℕ, ◌+◌, ◌-◌, Option, none, some, Bool, true, false, if◌then◌else◌}

-- A container is known by its pid. `readers` and `writing` are the state of `mu`.
pub record ContainerHolder : Type 0 where
  pub container : Option ℕ
  pub deleted : Bool
  pub readers : ℕ
  pub writing : Bool

-- `ErrContainerDeleted`, `ErrContainerNotCreated`, and errors of the supplier.
pub data HolderError : Type 0 where
  container_deleted container_not_created : HolderError
  supplier_error : ℕ → HolderError

-- A container or its pid, or an error.
pub data Got : Type 0 where
  got : ℕ → Got
  refused : HolderError → Got

-- What the supplier of `NewContainer` returns.
pub data Supplied : Type 0 where
  supplied : (pid : ℕ) → Supplied
  not_supplied : ℕ → Supplied

unfoldable pub new_holder : ContainerHolder
new_holder = record { container = none; deleted = false; readers = 0; writing = false }

unfoldable pub new_container : ContainerHolder → Supplied → ContainerHolder × Got
new_container h (not_supplied e) = (h, refused (supplier_error e))
new_container h (supplied pid) = (record h { container = some pid }, got pid)

unfoldable pub is_deleted : ContainerHolder → Bool
is_deleted h = h.deleted

abbrev pub missing : ContainerHolder → HolderError
missing h = if h.deleted then container_deleted else container_not_created

-- `GetLockedContainer` and the unlock that it returns.
unfoldable pub get_locked_container : ContainerHolder → ContainerHolder × Got
get_locked_container h = elim h.container [
  | none ↦ (h, refused (missing h))
  | some c ↦ (record h { readers = h.readers + 1 }, got c)
]

unfoldable pub unlock_container : ContainerHolder → ContainerHolder
unlock_container h = record h { readers = h.readers - 1 }

-- `GetLockedContainerForDelete`, and the two functions that it returns.
unfoldable pub get_locked_container_for_delete : ContainerHolder → ContainerHolder × Got
get_locked_container_for_delete h = elim h.container [
  | none ↦ (h, refused (missing h))
  | some c ↦ (record h { writing = true }, got c)
]

unfoldable pub finish_delete : ContainerHolder → ContainerHolder
finish_delete h = record h { deleted = true; container = none; writing = false }

unfoldable pub cancel_delete : ContainerHolder → ContainerHolder
cancel_delete h = record h { writing = false }
