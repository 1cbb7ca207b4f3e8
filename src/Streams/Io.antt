-- ===== src/Streams/Io.antt =====
-- process/io.go: the streams of a process, made by `createIO` and copied to the logs by `Copy`. A uri
-- comes parsed, with its scheme; runc's pipes and files have their answers as arguments.
use systemd_runtime.Common.{
  ℕ, ◌+◌, List, [], ◌∷◌, ◌++◌, Option, none, some, Bool, true, false, not, if◌then◌else◌,
}
use systemd_runtime.Streams.{Name, FileError, Round, check_or_create_fifo}
use systemd_runtime.Streams.Handle.{Calls, HandleError, Made, made, refused, get_or_create_handle}

-- `name != ""`
abbrev pub is_given : Name → Bool
is_given [] = false
is_given (c ∷ name) = true

pub record Stdio : Type 0 where
  pub stdin : Name
  pub stdout : Name
  pub stderr : Name

pub data Scheme : Type 0 where
  empty_scheme fifo_scheme binary_scheme file_scheme : Scheme
  other_scheme : Name → Scheme

pub record Url : Type 0 where
  pub scheme : Scheme
  pub path : Name

-- What `runc.IO` is: the null device, the pipes of runc with those that are open, a log binary.
pub data Io : Type 0 where
  null_io : Io
  pipe_io : (open_stdin open_stdout open_stderr : Bool) → Io
  binary_io : Io

-- The fields of `processIO`; `uri` is nil for the null device.
pub record ProcessIo : Type 0 where
  pub io : Io
  pub uri : Option Url
  pub copies : Bool
  pub stdio : Stdio

pub data IoError : Type 0 where
  null_io_error parse_error pipe_error binary_error : FileError → IoError
  directory_error file_error : FileError → IoError
  unknown_scheme : Name → IoError
  check_fifo_error : Name → FileError → IoError
  open_fifo_error : Name → HandleError → IoError

-- The answers to the calls of `createIO`; `uri` has the parsed uri of stdout.
pub record CreateAnswers : Type 0 where
  pub null_err : Option FileError
  pub parse_err : Option FileError
  pub uri : Url
  pub pipe_err : Option FileError
  pub binary_err : Option FileError
  pub directory_err : Option FileError
  pub file_err : Option FileError

pub data Created : Type 0 where
  created : ProcessIo → Created
  not_created : IoError → Created

-- `if err != nil { return nil, err }; return pio, nil`
or_created : Option FileError → (FileError → IoError) → ProcessIo → Created
or_created none wrap pio = created pio
or_created (some e) wrap pio = not_created (wrap e)

-- `runc.NewPipeIO` with `withConditionalIO`
unfoldable pub with_conditional_io : Stdio → Io
with_conditional_io c = pipe_io (is_given c.stdin) (is_given c.stdout) (is_given c.stderr)

-- The file is made before the pipes, and closed again.
file_io : Stdio → Url → CreateAnswers → Created
unfolding or_created with_conditional_io
file_io stdio u a = elim a.directory_err [
  | some e ↦ not_created (directory_error e)
  | none ↦ elim a.file_err [
    | some e ↦ not_created (file_error e)
    | none ↦ or_created a.pipe_err pipe_error (record {
      io = with_conditional_io stdio;
      uri = some u;
      copies = true;
      stdio = record stdio { stdout = u.path; stderr = u.path };
    })
  ]
]

fifo_io : Stdio → Url → CreateAnswers → Created
unfolding or_created with_conditional_io
fifo_io stdio u a =
    or_created a.pipe_err pipe_error
      (record { io = with_conditional_io stdio; uri = some u; copies = true; stdio = stdio })

-- The switch on the scheme; the empty one is set to that of fifos.
unfoldable pub io_for : Scheme → Stdio → Url → CreateAnswers → Created
unfolding or_created with_conditional_io file_io fifo_io
io_for empty_scheme stdio u a = fifo_io stdio (record u { scheme = fifo_scheme }) a
io_for fifo_scheme stdio u a = fifo_io stdio u a
io_for binary_scheme stdio u a =
    or_created a.binary_err binary_error
      (record { io = binary_io; uri = some u; copies = false; stdio = stdio })
io_for file_scheme stdio u a = file_io stdio u a
io_for (other_scheme s) stdio u a = not_created (unknown_scheme s)

-- `createIO`; `null` is the answer of `stdio.IsNull()`.
unfoldable pub create_io : (null : Bool) → Stdio → CreateAnswers → Created
unfolding or_created io_for
create_io true stdio a =
    or_created a.null_err null_io_error
      (record { io = null_io; uri = none; copies = false; stdio = stdio })
create_io false stdio a = elim a.parse_err [
  | some e ↦ not_created (parse_error e)
  | none ↦ io_for a.uri.scheme stdio a.uri a
]

-- The two streams that are copied.
pub data Side : Type 0 where
  to_stdout to_stderr : Side

-- What the kernel answers about the file with this name, when the stream is at it.
pub record FileAnswers : Type 0 where
  pub rounds : ℕ → Round
  pub handle_calls : Calls

-- `NewLogger` with `newFifo`: the log has the handle that is made.
unfoldable pub new_logger : Calls → Made
new_logger c = get_or_create_handle c

-- What `Copy` has done: the streams that a goroutine copies, the value that was added to the wait
-- group of the process, and the error.
pub record Copied : Type 0 where
  pub copying : List Side
  pub waiting : ℕ
  pub err : Option IoError

-- `i.dest(fw)`
unfoldable pub dest : Side → Copied → Copied
dest side c = record c { copying = c.copying ++ (side ∷ []); waiting = c.waiting + 1 }

unfoldable pub logger_made : Side → Name → Made → Copied → Copied
unfolding dest
logger_made side name (made h) c = dest side c
logger_made side name (refused e files) c = record c { err = some (open_fifo_error name e) }

unfoldable pub fifo_checked : Side → Name → Bool × Option FileError → Made → Copied → Copied
unfolding logger_made
fifo_checked side name (ok, some e) logger c = record c { err = some (check_fifo_error name e) }
fifo_checked side name (ok, none) logger c = logger_made side name logger c

-- One round of the loop, which an error of an earlier one has left.
unfoldable pub copy_stream : FileAnswers → Side → Name → Copied → Copied
unfolding fifo_checked new_logger
copy_stream k side name c = elim c.err [
  | some e ↦ c
  | none ↦ fifo_checked side name (check_or_create_fifo k.rounds) (new_logger k.handle_calls) c
]

-- `copyPipes`
unfoldable pub copy_pipes : (Side → Name → FileAnswers) → (stdout stderr : Name) → Copied
unfolding copy_stream
copy_pipes kernel stdout stderr =
    let start : Copied = record { copying = []; waiting = 0; err = none } in
    copy_stream (kernel to_stderr stderr) to_stderr stderr
      (copy_stream (kernel to_stdout stdout) to_stdout stdout start)

-- `Copy`
unfoldable pub copy : ProcessIo → (Side → Name → FileAnswers) → Copied
unfolding copy_pipes
copy p kernel =
    if not p.copies
    then record { copying = []; waiting = 0; err = none }
    else copy_pipes kernel p.stdio.stdout p.stdio.stderr
