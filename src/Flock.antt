-- ===== src/Flock.antt =====
-- utils/flock.go: advisory locks by `fcntl`. The kernel's answers are arguments.
pub mod Wait
use systemd_runtime.Common.{ℕ, List, [], ◌∷◌, Option, none, some, Bool, true, false}

-- `EAGAIN`, `EACCES`, and every other error number.
pub data Errno : Type 0 where
  eagain eacces : Errno
  errno : ℕ → Errno

-- An `error` of this package and its callers: of a system call, of the context, of encoding/json,
-- and the two of common/errors.go.
pub data Error : Type 0 where
  os_error : ℕ → Error
  context_done : Error
  json_error : ℕ → Error
  bundle_disabled bundle_is_already_running : Error

-- What `F_GETLK` writes back: whether the lock could be placed.
pub data GetLock : Type 0 where
  unlocked locked_elsewhere : GetLock
  get_failed : ℕ → GetLock

unfoldable pub file_can_lock : GetLock → Bool × Option Error
file_can_lock unlocked = (true, none)
file_can_lock locked_elsewhere = (false, none)
file_can_lock (get_failed e) = (false, some (os_error e))

-- `none` says that the kernel placed the lock.
unfoldable pub file_nb_lock : Option Errno → Bool × Option Error
file_nb_lock none = (true, none)
file_nb_lock (some eagain) = (false, none)
file_nb_lock (some eacces) = (false, none)
file_nb_lock (some (errno e)) = (false, some (os_error e))

-- One round of `FileLock`: the kernel's answer, and whether the context is done before the interval
-- is over.
pub record Try : Type 0 where
  pub answer : Option Errno
  pub done : Bool

pub data LockRun : Type 0 where
  acquired : LockRun
  failed : Error → LockRun
  waiting : LockRun

-- The end of a round that asked for the lock; `rest` is the outcome of the rounds to come.
after_try : Bool × Option Error → Bool → LockRun → LockRun
after_try (succ, some e) done rest = failed e
after_try (true, none) done rest = acquired
after_try (false, none) true rest = failed context_done
after_try (false, none) false rest = rest

-- `FileLock`; `waiting` says that the given rounds are over and the next one begins.
unfoldable pub file_lock : List Try → LockRun
unfolding after_try file_nb_lock
file_lock [] = waiting
file_lock (t ∷ ts) = after_try (file_nb_lock t.answer) t.done (file_lock ts)
