-- ===== src/Streams/Examples.antt =====
-- Runs of the streams, of the search for a fifo and of the pipes to a log binary.
use systemd_runtime.Common.{ℕ, zero, suc, ◌≤◌, [], ◌∷◌, none, some, true, false, ◌≡◌, inl, refl}
use systemd_runtime.Streams.{
  Name, Round, named_pipe, other_file, stat_failed, exist, not_exist, errno, check_or_create_fifo,
}
use systemd_runtime.Streams.Handle.{Calls, file_is_not_fifo}
use systemd_runtime.Streams.Io.{
  Stdio, CreateAnswers, ProcessIo, FileAnswers, Side, to_stdout, created, create_io, copy, pipe_io,
  binary_scheme, fifo_scheme, file_scheme, check_fifo_error, open_fifo_error,
}
use systemd_runtime.Streams.Fifos.{check_or_create_fifo_lem, LosesTo, Gets, Misses}
use systemd_runtime.Streams.Copying.{
  IsNameless, IsRegular, IsNamedPipe, missing_stderr_fails, file_scheme_fails,
}
use systemd_runtime.Streams.Binary
use systemd_runtime.Streams.Pipes.{ReadyOrCleared, new_binary_io_lem}
use systemd_runtime.Streams.Console
use systemd_runtime.Streams.Consoles.{LeftOpen, copy_console_lem}

-- Another process makes the fifo and removes it; the third round makes it.
abbrev racing : ℕ → Round
racing zero = record { stat = other_file; mkdir_err = none; mkfifo_err = none }
racing (suc zero) = record { stat = stat_failed not_exist; mkdir_err = none; mkfifo_err = none }
racing (suc (suc n)) = record {
  stat = stat_failed not_exist;
  mkdir_err = none;
  mkfifo_err = some exist;
}

racing_gets : check_or_create_fifo racing ≡ (true, none)
unfolding check_or_create_fifo
racing_gets = refl

check_or_create_fifo_lem_example :
    (check_or_create_fifo racing ≡ (true, none)
      → (k : ℕ) × (k ≤ 3) × LosesTo racing 3 k × Gets racing k)
    × (check_or_create_fifo racing ≡ (false, none)
        → (k : ℕ) × (k ≤ 3) × LosesTo racing 3 k × Misses racing k)
check_or_create_fifo_lem_example = check_or_create_fifo_lem racing

abbrev pipe_calls : Calls
pipe_calls = record {
  stat_err = none;
  mkfifo_err = none;
  open_err = none;
  opened = 7;
  fstat_err = none;
  fstat = record { mode = 0x11a4; dev = 5; ino = 99 };
  proc_err = none;
}

abbrev regular_calls : Calls
regular_calls = record pipe_calls { fstat = record { mode = 0x81a4; dev = 5; ino = 98 } }

abbrev out_name : Name
out_name = b'/' ∷ b'o' ∷ []

abbrev pipe_answers : FileAnswers
pipe_answers = record {
  rounds = λ r. record { stat = named_pipe; mkdir_err = none; mkfifo_err = none };
  handle_calls = pipe_calls;
}

abbrev no_name_answers : FileAnswers
no_name_answers = record {
  rounds =
      λ r. record { stat = stat_failed not_exist; mkdir_err = none; mkfifo_err = some not_exist };
  handle_calls = pipe_calls;
}

abbrev regular_answers : FileAnswers
regular_answers = record {
  rounds = λ r. record { stat = other_file; mkdir_err = none; mkfifo_err = none };
  handle_calls = regular_calls;
}

-- Every name but the empty one is a fifo.
abbrev pipes_exist : Side → Name → FileAnswers
pipes_exist side [] = no_name_answers
pipes_exist side (c ∷ name) = pipe_answers

abbrev only_stdout : Stdio
only_stdout = record { stdin = []; stdout = out_name; stderr = [] }

abbrev answers : CreateAnswers
answers = record {
  null_err = none;
  parse_err = none;
  uri = record { scheme = fifo_scheme; path = out_name };
  pipe_err = none;
  binary_err = none;
  directory_err = none;
  file_err = none;
}

abbrev pipes_stdout : ProcessIo
pipes_stdout = record {
  io = pipe_io false true false;
  uri = some (record { scheme = fifo_scheme; path = out_name });
  copies = true;
  stdio = only_stdout;
}

no_name-IsNameless : IsNameless no_name_answers
no_name-IsNameless = record { not_found = λ r. refl; directory = λ r. refl; not_made = λ r. refl }

pipe-IsNamedPipe : IsNamedPipe pipe_answers
pipe-IsNamedPipe = record {
  found = λ r. refl;
  stat_known = refl;
  can_open = refl;
  fstat_known = refl;
  mode_known = refl;
  proc_known = refl;
}

file-IsRegular : IsRegular regular_answers
file-IsRegular = record {
  found = λ r. refl;
  stat_known = refl;
  can_open = refl;
  fstat_known = refl;
  mode_known = refl;
}

stdout_created : create_io false only_stdout answers ≡ created pipes_stdout
unfolding create_io
stdout_created = refl

missing_stderr_fails_example :
    (pipes_stdout.io ≡ pipe_io false true false)
    × (copy pipes_stdout pipes_exist ≡ record {
      copying = to_stdout ∷ [];
      waiting = 1;
      err = some (check_fifo_error [] not_exist);
    })
missing_stderr_fails_example =
    missing_stderr_fails only_stdout answers pipes_stdout pipes_exist (inl refl) stdout_created
      no_name-IsNameless pipe-IsNamedPipe refl

abbrev file_answers : CreateAnswers
file_answers = record answers { uri = record { scheme = file_scheme; path = out_name } }

abbrev file_stdio : Stdio
file_stdio = record { stdin = []; stdout = out_name; stderr = out_name }

abbrev file_io : ProcessIo
file_io = record {
  io = pipe_io false true true;
  uri = some (record { scheme = file_scheme; path = out_name });
  copies = true;
  stdio = file_stdio;
}

file_created : create_io false file_stdio file_answers ≡ created file_io
unfolding create_io
file_created = refl

file_scheme_fails_example :
    copy file_io (λ side name. regular_answers)
    ≡ record { copying = []; waiting = 0; err = some (open_fifo_error out_name file_is_not_fifo) }
file_scheme_fails_example =
    file_scheme_fails file_stdio file_answers file_io (λ side name. regular_answers) refl
      file_created file-IsRegular

abbrev binary_kernel : Binary.Kernel
binary_kernel = record {
  namespace_given = true;
  out_pipe = none;
  err_pipe = none;
  ready_pipe = none;
  start = none;
  close = none;
  ready = Binary.read_eof;
  kill = none;
}

new_binary_io_lem_example : ReadyOrCleared (Binary.new_binary_io binary_kernel)
new_binary_io_lem_example = new_binary_io_lem binary_kernel

abbrev console_kernel : Console.Kernel
console_kernel = record {
  epoller_set = true;
  add = none;
  open_stdin = none;
  parse = none;
  scheme = binary_scheme;
  namespace_given = true;
  out_pipe = none;
  err_pipe = none;
  ready_pipe = some (errno 24);
  start = none;
  close_write = none;
  close = none;
  ready = Binary.read_eof;
  open_stdout_w = none;
  open_stdout_r = none;
}

copy_console_lem_example : LeftOpen [] (Console.copy_console [] console_kernel)
copy_console_lem_example = copy_console_lem [] console_kernel refl
