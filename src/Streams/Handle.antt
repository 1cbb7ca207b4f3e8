-- ===== src/Streams/Handle.antt =====
-- tasklog/handle.go: a handle keeps a descriptor of a fifo that is opened by its path only, and
-- remembers which file it is.
use systemd_runtime.Common.{
  ℕ, ◌-◌, ◌/◌, ◌%◌, Option, none, some, Bool, true, false, ◌&&◌, ◌==◌, if◌then◌else◌,
}
use systemd_runtime.Streams.{FileError, is_not_exist}

-- The fields of `syscall.Stat_t` that are read.
pub record FileStat : Type 0 where
  pub mode : ℕ
  pub dev : ℕ
  pub ino : ℕ

-- `stat.Mode & S_IFIFO == S_IFIFO`, where `S_IFIFO` is 0x1000.
unfoldable pub is_fifo_mode : ℕ → Bool
is_fifo_mode mode = (mode / 4096) % 2 == 1

pub data HandleError : Type 0 where
  stat_error create_error open_error fstat_error proc_error : FileError → HandleError
  file_is_not_fifo verify_failed : HandleError

-- `files` counts the descriptors of the handle that are open; `done` is that of `closeOnce`.
pub record Handle : Type 0 where
  pub fd : ℕ
  pub dev : ℕ
  pub ino : ℕ
  pub done : Bool
  pub files : ℕ

-- The answers to the calls of `getOrCreateHandle`, in their order; `opened` has the descriptor.
pub record Calls : Type 0 where
  pub stat_err : Option FileError
  pub mkfifo_err : Option FileError
  pub open_err : Option FileError
  pub opened : ℕ
  pub fstat_err : Option FileError
  pub fstat : FileStat
  pub proc_err : Option FileError

-- The handle, or the error with the descriptors that it leaves open.
pub data Made : Type 0 where
  made : Handle → Made
  refused : HandleError → ℕ → Made

-- `err != nil && !os.IsExist(err)`
abbrev pub other_than_exist : Option FileError → Option FileError
other_than_exist none = none
other_than_exist (some FileError.exist) = none
other_than_exist (some FileError.not_exist) = some FileError.not_exist
other_than_exist (some FileError.already_closed) = some FileError.already_closed
other_than_exist (some (FileError.errno e)) = some (FileError.errno e)

-- The test that comes first: whether there is a file, or one is made.
make_sure : (stat_err mkfifo_err : Option FileError) → Option HandleError
make_sure none mkfifo_err = none
make_sure (some e) mkfifo_err =
    if is_not_exist (some e)
    then (elim (other_than_exist mkfifo_err) [ none ↦ none | some e' ↦ some (create_error e') ])
    else some (stat_error e)

-- What follows the opening, with the descriptors that are open; `f.Close()` takes one off.
opened_handle : (files : ℕ) → Calls → Made
opened_handle files c = elim c.fstat_err [
  | some e ↦ refused (fstat_error e) (files - 1)
  | none ↦
      if is_fifo_mode c.fstat.mode
      then (elim c.proc_err [
        | some e ↦ refused (proc_error e) (files - 1)
        | none ↦ made (record {
          fd = c.opened;
          dev = c.fstat.dev;
          ino = c.fstat.ino;
          done = false;
          files = files;
        })
      ])
      else refused file_is_not_fifo (files - 1)
]

open_handle : Calls → Made
open_handle c = elim c.open_err [ some e ↦ refused (open_error e) 0 | none ↦ opened_handle 1 c ]

unfoldable pub get_or_create_handle : Calls → Made
unfolding make_sure open_handle opened_handle is_fifo_mode
get_or_create_handle c = elim (make_sure c.stat_err c.mkfifo_err) [
  | some e ↦ refused e 0
  | none ↦ open_handle c
]

-- `Close`, whose result is always nil.
unfoldable pub close : Handle → Handle
close h = if h.done then h else record h { done = true; files = 0 }

-- The answers to `syscall.Stat` of the path under /proc and to opening it.
pub record Reopen : Type 0 where
  pub stat_err : Option FileError
  pub stat : FileStat
  pub open_err : Option FileError

-- `path`: an error, or none if the path leads to the file of the handle.
unfoldable pub path : Handle → Reopen → Option HandleError
path h r = elim r.stat_err [
  | some e ↦ some (stat_error e)
  | none ↦ if (r.stat.dev == h.dev) && (r.stat.ino == h.ino) then none else some verify_failed
]

-- `OpenFifo`
unfoldable pub open_fifo : Handle → Reopen → Option HandleError
unfolding path
open_fifo h r = elim (path h r) [
  | some e ↦ some e
  | none ↦ elim r.open_err [ some e ↦ some (open_error e) | none ↦ none ]
]
