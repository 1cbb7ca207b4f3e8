-- ===== src/Transport.antt =====
-- shim/util.go: the addresses of sockets, the file that has the address of a shim, and the OOM score.
-- What the file system and the network answer is an argument.
pub mod Addresses
mod Examples
use systemd_runtime.Common.{
  ℕ, ◌+◌, List, [], ◌∷◌, ◌++◌, Option, none, some, Bool, true, false, not, if◌then◌else◌, ltb,
  length, ◌==◌,
}
use systemd_runtime.Streams.{FileError, exist, not_exist}
use systemd_runtime.Common.Texts.{Text, codes, strip, has_prefix, text_eq}

abbrev pub unix : Text
unix = codes "unix://"

-- `isAbstract`
unfoldable pub is_abstract : Text → Bool
is_abstract address = not (has_prefix address unix)

-- `strings.TrimPrefix(s, "unix://")`
abbrev pub trimmed : Text → Option Text → Text
trimmed s none = s
trimmed s (some rest) = rest

-- `path`: without the prefix, or with a zero byte in front if nothing was trimmed.
unfoldable pub path : Text → Text
path address =
    let p = trimmed address (strip unix address) in if length p == length address then 0 ∷ p else p

pub data AddressError : Type 0 where
  path_error write_error : ℕ → AddressError
  file_error : FileError → AddressError
  no_address : AddressError

-- The file of the address and the hidden one beside it, with what they have.
pub record AddressFiles : Type 0 where
  pub address : Option Text
  pub temp : Option Text

-- The answers of one call: to `filepath.Abs`, to opening, to writing (with the part that is written),
-- to renaming and to reading.
pub record Answers : Type 0 where
  pub abs_err : Option ℕ
  pub open_err : Option FileError
  pub write_err : Option (Text × ℕ)
  pub rename_err : Option FileError
  pub read_err : Option FileError

-- `OpenFile` with `O_CREATE` and `O_EXCL`.
open_temp : Answers → AddressFiles → AddressFiles × Option FileError
open_temp a f = elim f.temp [
  | some t ↦ (f, some exist)
  | none ↦ elim a.open_err [ some e ↦ (f, some e) | none ↦ (record f { temp = some [] }, none) ]
]

-- `os.Rename(tempPath, path)`
rename_temp : Answers → AddressFiles → AddressFiles × Option AddressError
rename_temp a f = elim a.rename_err [
  | some e ↦ (f, some (file_error e))
  | none ↦ (record { address = f.temp; temp = none }, none)
]

temp_opened : Answers → Text → AddressFiles × Option FileError → AddressFiles × Option AddressError
unfolding rename_temp
temp_opened a address (f, some e) = (f, some (file_error e))
temp_opened a address (f, none) = elim a.write_err [
  | some (part, e) ↦ (record f { temp = some part }, some (write_error e))
  | none ↦ rename_temp a (record f { temp = some address })
]

-- `WriteAddress`
unfoldable pub write_address : Answers → Text → AddressFiles → AddressFiles × Option AddressError
unfolding open_temp temp_opened
write_address a address f = elim a.abs_err [
  | some e ↦ (f, some (path_error e))
  | none ↦ temp_opened a address (open_temp a f)
]

-- The text of a file; an empty one has no address.
content_of : Text → Text × Option AddressError
content_of [] = ([], some no_address)
content_of (c ∷ t) = (c ∷ t, none)

read_content : Answers → Option Text → Text × Option AddressError
unfolding content_of
read_content a none = ([], some (file_error not_exist))
read_content a (some t) = elim a.read_err [
  | some e ↦ ([], some (file_error e))
  | none ↦ content_of t
]

-- `ReadAddress`
unfoldable pub read_address : Answers → AddressFiles → Text × Option AddressError
unfolding read_content
read_address a f = elim a.abs_err [
  | some e ↦ ([], some (path_error e))
  | none ↦ read_content a f.address
]

-- `NewSocket`: whether the listener is there, and the error.
pub record Socket : Type 0 where
  pub listening : Bool
  pub err : Option FileError

-- The answers to the calls of `NewSocket`; `chmod` is asked about a path.
pub record SocketAnswers : Type 0 where
  pub mkdir_err : Option FileError
  pub listen_err : Option FileError
  pub chmod : Text → Option FileError

-- A listener whose file cannot be protected is closed.
listen_on : SocketAnswers → Text → Socket
listen_on a p = elim a.listen_err [
  | some e ↦ record { listening = false; err = some e }
  | none ↦ elim (a.chmod p) [
    | none ↦ record { listening = true; err = none }
    | some e ↦ record { listening = false; err = some e }
  ]
]

unfoldable pub new_socket : SocketAnswers → (address : Text) → Socket
unfolding listen_on is_abstract
new_socket a address =
    if is_abstract address then listen_on a (path address) else (elim a.mkdir_err [
      | some e ↦ record { listening = false; err = some e }
      | none ↦ listen_on a (path address)
    ])

-- `RemoveSocket`: whether the file is removed, and the error.
unfoldable pub remove_socket :
    (remove_err : Option FileError) → (address : Text) → Bool × Option FileError
unfolding is_abstract
remove_socket remove_err address =
    if not (is_abstract address)
    then (elim remove_err [ some e ↦ (false, some e) | none ↦ (true, none) ])
    else (false, none)

-- What an error of the network is about: an error number of a system call, or something else.
pub data Cause : Type 0 where
  syscall_errno : ℕ → Cause
  other_cause : Cause

pub data NetError : Type 0 where
  op_error : (op : Text) → Cause → NetError
  other_error : NetError

abbrev pub eaddrinuse : ℕ
eaddrinuse = 98

is_eaddrinuse : Cause → Bool
is_eaddrinuse (syscall_errno e) = e == eaddrinuse
is_eaddrinuse other_cause = false

-- `SocketEaddrinuse`
unfoldable pub socket_eaddrinuse : NetError → Bool
unfolding is_eaddrinuse
socket_eaddrinuse (op_error op cause) =
    if not (text_eq op (codes "listen")) then false else is_eaddrinuse cause
socket_eaddrinuse other_error = false
