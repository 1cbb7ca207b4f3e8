-- ===== src/Streams.antt =====
-- tasklog/utils.go: the fifo of a log is looked for and made. What the kernel says of files is an
-- argument. The children are about the handles of fifos (Handle), the streams of a process (Io), and
-- the pipes to a log binary (Binary).
pub mod Handle
pub mod Io
pub mod Copying
pub mod Fifos
pub mod Binary
pub mod Pipes
pub mod Console
pub mod Consoles
mod Examples
use systemd_runtime.Common.{
  ℕ, zero, suc, List, Option, none, some, Bool, true, false, if◌then◌else◌,
}

-- A text, such as a path: its bytes.
abbrev pub Name : Type 0
Name = List ℕ

-- An `error` of a call on files: those that `os.IsExist` and `os.IsNotExist` tell, `os.ErrClosed`, and
-- every other.
pub data FileError : Type 0 where
  exist not_exist already_closed : FileError
  errno : ℕ → FileError

-- What `os.Stat` finds.
pub data Stat : Type 0 where
  named_pipe other_file : Stat
  stat_failed : FileError → Stat

-- `err != nil && os.IsNotExist(err)`
abbrev pub is_not_exist : Option FileError → Bool
is_not_exist (some not_exist) = true
is_not_exist (some exist) = false
is_not_exist (some already_closed) = false
is_not_exist (some (errno e)) = false
is_not_exist none = false

-- `isFifo`
unfoldable pub is_fifo : Stat → Bool × Option FileError
is_fifo named_pipe = (true, none)
is_fifo other_file = (false, none)
is_fifo (stat_failed e) = (false, some e)

-- `IsFifo`, for which a file that does not exist is no error.
unfoldable pub is_fifo_if_present : Stat → Bool × Option FileError
is_fifo_if_present named_pipe = (true, none)
is_fifo_if_present other_file = (false, none)
is_fifo_if_present (stat_failed not_exist) = (false, none)
is_fifo_if_present (stat_failed exist) = (false, some exist)
is_fifo_if_present (stat_failed already_closed) = (false, some already_closed)
is_fifo_if_present (stat_failed (errno e)) = (false, some (errno e))

unfoldable pub mk_fifo : (mkdir_err mkfifo_err : Option FileError) → Option FileError
mk_fifo (some e) mkfifo_err = some e
mk_fifo none mkfifo_err = mkfifo_err

-- The answers of one round.
pub record Round : Type 0 where
  pub stat : Stat
  pub mkdir_err : Option FileError
  pub mkfifo_err : Option FileError

-- The end of a round that found no file; `rest` is the outcome of the rounds to come.
unfoldable pub after_mk : Option FileError → Bool × Option FileError → Bool × Option FileError
after_mk none rest = (true, none)
after_mk (some exist) rest = rest
after_mk (some not_exist) rest = (false, some not_exist)
after_mk (some already_closed) rest = (false, some already_closed)
after_mk (some (errno e)) rest = (false, some (errno e))

-- The loop, from the round with this `retry`; the answers go by the same count.
unfoldable pub check_from : ℕ → (ℕ → Round) → Bool × Option FileError
unfolding is_fifo mk_fifo after_mk
check_from zero rounds =
    let found = is_fifo (rounds 0).stat in if is_not_exist found.1 then (false, none) else found
check_from (suc r) rounds =
    let found = is_fifo (rounds (suc r)).stat in
    let made = mk_fifo (rounds (suc r)).mkdir_err (rounds (suc r)).mkfifo_err in
    let rest = check_from r rounds in if is_not_exist found.1 then after_mk made rest else found

unfoldable pub check_or_create_fifo : (ℕ → Round) → Bool × Option FileError
unfolding check_from
check_or_create_fifo rounds = check_from 3 rounds
