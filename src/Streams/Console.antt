-- ===== src/Streams/Console.antt =====
-- runc/platform.go: the console of a process with a terminal, which is copied to its stdout by an epoll
-- loop. Descriptors that the method opens are fields.
use systemd_runtime.Common.{
  ℕ, ◌+◌, List, [], ◌∷◌, Option, none, some, Bool, true, false, not, if◌then◌else◌,
}
use systemd_runtime.Streams.{Name, FileError}
use systemd_runtime.Streams.Binary.{
  File, unopened, opened, close_file, Ready, read_byte, read_eof, read_failed,
}
use systemd_runtime.Streams.Io.{
  is_given, Scheme, empty_scheme, fifo_scheme, binary_scheme, file_scheme, other_scheme,
}

-- `added` is whether the epoll loop has the console; `copies_stdin` and `copies_stdout` whether a
-- goroutine copies, which closes what it copies to at its end; `waiting` what was added to the wait
-- group of the process. The files are stdin's fifo, the two ends of stdout's fifo, and the ends of the
-- three pipes to a log binary.
pub record Console : Type 0 where
  pub added : Bool
  pub copies_stdin : Bool
  pub copies_stdout : Bool
  pub waiting : ℕ
  pub stdin_fifo : File
  pub stdout_w : File
  pub stdout_r : File
  pub out_r : File
  pub out_w : File
  pub err_r : File
  pub err_w : File
  pub ready_r : File
  pub ready_w : File
  pub binary_started : Bool

unfoldable pub no_console : Console
no_console = record {
  added = false;
  copies_stdin = false;
  copies_stdout = false;
  waiting = 0;
  stdin_fifo = unopened;
  stdout_w = unopened;
  stdout_r = unopened;
  out_r = unopened;
  out_w = unopened;
  err_r = unopened;
  err_w = unopened;
  ready_r = unopened;
  ready_w = unopened;
  binary_started = false;
}

pub data ConsoleError : Type 0 where
  uninitialized_epoller no_namespace not_an_epoll_console : ConsoleError
  add_error stdin_error parse_error stdout_error : FileError → ConsoleError
  out_pipe_error err_pipe_error ready_pipe_error : FileError → ConsoleError
  start_error close_write_error read_error shutdown_error : FileError → ConsoleError

-- The answers to the calls of `CopyConsole`. `scheme` is that of the uri of stdout.
pub record Kernel : Type 0 where
  pub epoller_set : Bool
  pub add : Option FileError
  pub open_stdin : Option FileError
  pub parse : Option FileError
  pub scheme : Scheme
  pub namespace_given : Bool
  pub out_pipe : Option FileError
  pub err_pipe : Option FileError
  pub ready_pipe : Option FileError
  pub start : Option FileError
  pub close_write : Option FileError
  pub close : Option FileError
  pub ready : Ready
  pub open_stdout_w : Option FileError
  pub open_stdout_r : Option FileError

-- A console that is copied, or an error, with what is left behind.
pub data Copied : Type 0 where
  copied : Console → Copied
  not_copied : Console → ConsoleError → Copied

-- The files of `filesToClose`.
pub data End : Type 0 where
  out_read err_read ready_read : End

close_end : Kernel → End → Console → Console
unfolding close_file
close_end k out_read c = record c { out_r = (close_file c.out_r k.close).0 }
close_end k err_read c = record c { err_r = (close_file c.err_r k.close).0 }
close_end k ready_read c = record c { ready_r = (close_file c.ready_r k.close).0 }

-- `process.CloseFiles`
unfoldable pub close_files : Kernel → List End → Console → Console
unfolding close_end
close_files k [] c = c
close_files k (e ∷ es) c = close_files k es (close_end k e c)

-- The deferred function, for an error.
fail : Kernel → List End → Console → ConsoleError → Copied
unfolding close_files
fail k ends c e = not_copied (close_files k ends c) e

abbrev pub all_ends : List End
all_ends = out_read ∷ err_read ∷ ready_read ∷ []

-- From the start of the log binary on.
log_started : Kernel → Console → Copied
unfolding fail close_file
log_started k c =
    let c' = record c { ready_w = (close_file c.ready_w k.close_write).0 } in
    elim k.close_write [
      | some e ↦ fail k all_ends c' (close_write_error e)
      | none ↦ elim k.ready [
        | read_byte ↦ copied c'
        | read_eof ↦ copied c'
        | read_failed e ↦ fail k all_ends c' (read_error e)
      ]
    ]

-- The goroutine that copies to the pipe is there before the log binary is started.
start_log : Kernel → Console → Copied
unfolding fail log_started
start_log k c =
    let c' = record c { copies_stdout = true; waiting = c.waiting + 1 } in
    elim k.start [
      | some e ↦ fail k all_ends c' (start_error e)
      | none ↦ log_started k (record c' { binary_started = true })
    ]

ready_pipe_made : Kernel → Console → Copied
unfolding fail start_log
ready_pipe_made k c = elim k.ready_pipe [
  | some e ↦ fail k (out_read ∷ err_read ∷ []) c (ready_pipe_error e)
  | none ↦ start_log k (record c { ready_r = opened; ready_w = opened })
]

err_pipe_made : Kernel → Console → Copied
unfolding fail ready_pipe_made
err_pipe_made k c = elim k.err_pipe [
  | some e ↦ fail k (out_read ∷ []) c (err_pipe_error e)
  | none ↦ ready_pipe_made k (record c { err_r = opened; err_w = opened })
]

out_pipe_made : Kernel → Console → Copied
unfolding fail err_pipe_made
out_pipe_made k c = elim k.out_pipe [
  | some e ↦ fail k [] c (out_pipe_error e)
  | none ↦ err_pipe_made k (record c { out_r = opened; out_w = opened })
]

copy_to_binary : Kernel → Console → Copied
unfolding out_pipe_made
copy_to_binary k c = if not k.namespace_given then not_copied c no_namespace else out_pipe_made k c

copy_to_fifo : Kernel → Console → Copied
copy_to_fifo k c = elim k.open_stdout_w [
  | some e ↦ not_copied c (stdout_error e)
  | none ↦ elim k.open_stdout_r [
    | some e ↦ not_copied (record c { stdout_w = opened }) (stdout_error e)
    | none ↦ copied (record c {
      stdout_w = opened;
      stdout_r = opened;
      copies_stdout = true;
      waiting = c.waiting + 1;
    })
  ]
]

-- The switch on the scheme.
copy_to : Scheme → Kernel → Console → Copied
unfolding copy_to_binary copy_to_fifo
copy_to binary_scheme k c = copy_to_binary k c
copy_to empty_scheme k c = copy_to_fifo k c
copy_to fifo_scheme k c = copy_to_fifo k c
copy_to file_scheme k c = copy_to_fifo k c
copy_to (other_scheme s) k c = copy_to_fifo k c

stdin_opened : Kernel → Console → Copied
unfolding copy_to
stdin_opened k c = elim k.parse [
  | some e ↦ not_copied c (parse_error e)
  | none ↦ copy_to k.scheme k c
]

console_added : (stdin : Name) → Kernel → Console → Copied
unfolding stdin_opened
console_added stdin k c = if not (is_given stdin) then stdin_opened k c else (elim k.open_stdin [
  | some e ↦ not_copied c (stdin_error e)
  | none ↦ stdin_opened k (record c { copies_stdin = true; stdin_fifo = opened })
])

-- `CopyConsole`
unfoldable pub copy_console : (stdin : Name) → Kernel → Copied
unfolding no_console console_added
copy_console stdin k =
    if not k.epoller_set then not_copied no_console uninitialized_epoller else (elim k.add [
      | some e ↦ not_copied no_console (add_error e)
      | none ↦ console_added stdin k (record no_console { added = true })
    ])

-- `ShutdownConsole`; `shutdown` is the answer of the epoll console.
unfoldable pub shutdown_console :
    (epoller_set is_epoll_console : Bool) (shutdown : Option FileError) → Option ConsoleError
shutdown_console epoller_set is_epoll_console shutdown =
    if not epoller_set
    then some uninitialized_epoller
    else if not is_epoll_console
    then some not_an_epoll_console
    else (elim shutdown [ some e ↦ some (shutdown_error e) | none ↦ none ])
