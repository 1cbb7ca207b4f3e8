-- ===== src/Streams/Binary.antt =====
-- process/io.go: the log binary, which gets the read ends of two pipes and the write end of a third
-- one, and tells by closing that one that it is ready. Each descriptor of the shim is a field.
use systemd_runtime.Common.{List, [], ◌∷◌, ◌++◌, Option, none, some, Bool, true, false}
use systemd_runtime.Streams.{FileError, already_closed}

-- An `os.File` of the shim.
pub data File : Type 0 where
  unopened opened closed : File

-- `Close` of a file: a second one is an error. `err` is what the kernel answers to the first one, which
-- frees the descriptor in any case.
unfoldable pub close_file : File → (err : Option FileError) → File × Option FileError
close_file opened err = (closed, err)
close_file closed err = (closed, some already_closed)
close_file unopened err = (unopened, none)

-- The log binary. `signalled` and `killed` say which call to end it was the last.
pub data Child : Type 0 where
  not_started running signalled killed : Child

-- The two ends of the pipes for stdout, for stderr and for the readiness, and the log binary.
pub record Shim : Type 0 where
  pub out_r : File
  pub out_w : File
  pub err_r : File
  pub err_w : File
  pub ready_r : File
  pub ready_w : File
  pub child : Child

unfoldable pub no_files : Shim
no_files = record {
  out_r = unopened;
  out_w = unopened;
  err_r = unopened;
  err_w = unopened;
  ready_r = unopened;
  ready_w = unopened;
  child = not_started;
}

pub data BinaryError : Type 0 where
  no_namespace : BinaryError
  stdout_pipe_error stderr_pipe_error pipe_error start_error : FileError → BinaryError
  close_write_error read_error close_error term_error kill_error wait_error :
      FileError → BinaryError

-- Reading the byte of readiness; the end of the file is taken as well.
pub data Ready : Type 0 where
  read_byte read_eof : Ready
  read_failed : FileError → Ready

-- What the kernel answers to each kind of call.
pub record Kernel : Type 0 where
  pub namespace_given : Bool
  pub out_pipe : Option FileError
  pub err_pipe : Option FileError
  pub ready_pipe : Option FileError
  pub start : Option FileError
  pub close : Option FileError
  pub ready : Ready
  pub kill : Option FileError

-- The error of a call, as the last one of a `multierror`.
unfoldable pub noted : (FileError → BinaryError) → Option FileError → List BinaryError
noted wrap none = []
noted wrap (some e) = wrap e ∷ []

-- `(*pipe).Close`: the write end first.
unfoldable pub close_out : Kernel → Shim → Shim × List BinaryError
unfolding close_file noted
close_out k s =
    let (w, e1) = close_file s.out_w k.close in
    let (r, e2) = close_file s.out_r k.close in
    (record s { out_w = w; out_r = r }, noted close_error e1 ++ noted close_error e2)

unfoldable pub close_err : Kernel → Shim → Shim × List BinaryError
unfolding close_file noted
close_err k s =
    let (w, e1) = close_file s.err_w k.close in
    let (r, e2) = close_file s.err_r k.close in
    (record s { err_w = w; err_r = r }, noted close_error e1 ++ noted close_error e2)

close_ready_r : Kernel → Shim → Shim × List BinaryError
unfolding close_file noted
close_ready_r k s =
    let (r, e) = close_file s.ready_r k.close in (record s { ready_r = r }, noted close_error e)

close_ready_w : Kernel → Shim → Shim × List BinaryError
unfolding close_file noted
close_ready_w k s =
    let (w, e) = close_file s.ready_w k.close in (record s { ready_w = w }, noted close_error e)

unfoldable pub kill_child : Kernel → Shim → Shim × List BinaryError
unfolding noted
kill_child k s = (record s { child = killed }, noted kill_error k.kill)

-- The list `closers` of `NewBinaryIO`.
pub data Closer : Type 0 where
  out_close err_close ready_r_close ready_w_close child_kill : Closer

call_closer : Kernel → Closer → Shim → Shim × List BinaryError
unfolding close_out close_err close_ready_r close_ready_w kill_child
call_closer k out_close s = close_out k s
call_closer k err_close s = close_err k s
call_closer k ready_r_close s = close_ready_r k s
call_closer k ready_w_close s = close_ready_w k s
call_closer k child_kill s = kill_child k s

-- The deferred function: the closers in their order, with their errors behind the first one.
unfoldable pub call_closers :
    Kernel → List Closer → Shim × List BinaryError → Shim × List BinaryError
unfolding call_closer
call_closers k [] (s, errs) = (s, errs)
call_closers k (c ∷ cs) (s, errs) =
    let (s', new) = call_closer k c s in call_closers k cs (s', errs ++ new)

pub data Made : Type 0 where
  made : Shim → Made
  not_made : Shim → List BinaryError → Made

fail : Kernel → List Closer → Shim → BinaryError → Made
unfolding call_closers
fail k closers s e = let (s', errs) = call_closers k closers (s, e ∷ []) in not_made s' errs

abbrev pub all_pipes : List Closer
all_pipes = out_close ∷ err_close ∷ ready_r_close ∷ ready_w_close ∷ []

-- From the start of the binary on.
binary_started : Kernel → Shim → Made
unfolding fail close_file
binary_started k s =
    let (w, e) = close_file s.ready_w k.close in
    let s' = record s { ready_w = w } in
    let closers = all_pipes ++ (child_kill ∷ []) in
    elim e [
      | some e' ↦ fail k closers s' (close_write_error e')
      | none ↦ elim k.ready [
        | read_byte ↦ made s'
        | read_eof ↦ made s'
        | read_failed e' ↦ fail k closers s' (read_error e')
      ]
    ]

start_binary : Kernel → Shim → Made
unfolding fail binary_started
start_binary k s = elim k.start [
  | some e ↦ fail k all_pipes s (start_error e)
  | none ↦ binary_started k (record s { child = running })
]

ready_pipe_made : Kernel → Shim → Made
unfolding fail start_binary
ready_pipe_made k s = elim k.ready_pipe [
  | some e ↦ fail k (out_close ∷ err_close ∷ []) s (pipe_error e)
  | none ↦ start_binary k (record s { ready_r = opened; ready_w = opened })
]

err_pipe_made : Kernel → Shim → Made
unfolding fail ready_pipe_made
err_pipe_made k s = elim k.err_pipe [
  | some e ↦ fail k (out_close ∷ []) s (stderr_pipe_error e)
  | none ↦ ready_pipe_made k (record s { err_r = opened; err_w = opened })
]

out_pipe_made : Kernel → Shim → Made
unfolding fail err_pipe_made
out_pipe_made k s = elim k.out_pipe [
  | some e ↦ fail k [] s (stdout_pipe_error e)
  | none ↦ err_pipe_made k (record s { out_r = opened; out_w = opened })
]

-- `NewBinaryIO`
unfoldable pub new_binary_io : Kernel → Made
unfolding no_files out_pipe_made
new_binary_io k = elim k.namespace_given [
  | false ↦ not_made no_files (no_namespace ∷ [])
  | true ↦ out_pipe_made k no_files
]

-- `(*binaryIO).CloseAfterStart`
unfoldable pub close_after_start : Kernel → Shim → Shim × List BinaryError
unfolding close_file noted
close_after_start k s =
    let (o, e1) = close_file s.out_r k.close in
    let (e, e2) = close_file s.err_r k.close in
    (record s { out_r = o; err_r = e }, noted close_error e1 ++ noted close_error e2)

-- The answers to `cancel`: to the signals, and what the wait for the binary gives, none if it
-- lasts longer than `binaryIOProcTermTimeout`.
pub record Cancel : Type 0 where
  pub term : Option FileError
  pub waited : Option (Option FileError)
  pub kill : Option FileError

-- `cancel`; the command of a `binaryIO` is set and started.
unfoldable pub cancel : Cancel → Shim → Shim × List BinaryError
unfolding noted
cancel c s = elim c.term [
  | some e ↦ (record s { child = killed }, term_error e ∷ noted kill_error c.kill)
  | none ↦ elim c.waited [
    | some err ↦ (record s { child = signalled }, noted wait_error err)
    | none ↦ (record s { child = killed }, noted kill_error c.kill)
  ]
]

-- `(*binaryIO).Close`
unfoldable pub close : Kernel → Cancel → Shim → Shim × List BinaryError
unfolding close_out close_err cancel
close k c s =
    let (s1, e1) = close_out k s in
    let (s2, e2) = close_err k s1 in let (s3, e3) = cancel c s2 in (s3, e1 ++ (e2 ++ e3))
