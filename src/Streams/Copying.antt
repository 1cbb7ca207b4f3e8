-- ===== src/Streams/Copying.antt =====
-- What `Copy` of process/io.go does on the streams that `createIO` makes.
use systemd_runtime.Common.{
  ℕ, ◌+◌, ◌/◌, ◌<◌, [], ◌∷◌, none, some, false, true, ◌≡◌, ◌≢◌, ◌⊎◌, inl, inr, refl, ap, ◌∙◌, Bool,
  Option, arith, length, ◌++◌,
}
use systemd_runtime.Streams.{
  Name, FileError, named_pipe, other_file, stat_failed, not_exist, check_or_create_fifo,
}
use systemd_runtime.Streams.Handle.{file_is_not_fifo, get_or_create_handle, Made, made, refused}
use systemd_runtime.Streams.Io.{
  Stdio, CreateAnswers, ProcessIo, FileAnswers, Side, to_stdout, to_stderr, created, create_io,
  copy, pipe_io, is_given, fifo_scheme, empty_scheme, file_scheme, open_fifo_error,
  check_fifo_error, copy_stream, copy_pipes, new_logger, Copied, IoError, with_conditional_io,
  logger_made, fifo_checked,
}

-- No file can have the empty name: it is not found, and `mkfifo` does not make it. Its directory is
-- the current one, which is there.
pub record IsNameless (k : FileAnswers) : Type 0 where
  pub not_found : (r : ℕ) → (k.rounds r).stat ≡ stat_failed not_exist
  pub directory : (r : ℕ) → (k.rounds r).mkdir_err ≡ none
  pub not_made : (r : ℕ) → (k.rounds r).mkfifo_err ≡ some not_exist

-- A regular file that can be opened; `S_IFREG` is 0x8000.
pub record IsRegular (k : FileAnswers) : Type 0 where
  pub found : (r : ℕ) → (k.rounds r).stat ≡ other_file
  pub stat_known : k.handle_calls.stat_err ≡ none
  pub can_open : k.handle_calls.open_err ≡ none
  pub fstat_known : k.handle_calls.fstat_err ≡ none
  pub mode_known : k.handle_calls.fstat.mode / 4096 ≡ 8

-- A fifo that can be opened and is found under /proc; `S_IFIFO` is 0x1000.
pub record IsNamedPipe (k : FileAnswers) : Type 0 where
  pub found : (r : ℕ) → (k.rounds r).stat ≡ named_pipe
  pub stat_known : k.handle_calls.stat_err ≡ none
  pub can_open : k.handle_calls.open_err ≡ none
  pub fstat_known : k.handle_calls.fstat_err ≡ none
  pub mode_known : k.handle_calls.fstat.mode / 4096 ≡ 1
  pub proc_known : k.handle_calls.proc_err ≡ none

-- The start of the loop of `copyPipes`.
abbrev nothing_copied : Copied
nothing_copied = record { copying = []; waiting = 0; err = none }

stream-Nameless :
    (k : FileAnswers) (side : Side) (name : Name) (c : Copied)
    → IsNameless k
    → c.err ≡ none
    → copy_stream k side name c ≡ record c { err = some (check_fifo_error name not_exist) }
unfolding copy_stream check_or_create_fifo
stream-Nameless k side name c h e = ground (arith, h.not_found 3, h.directory 3, h.not_made 3)

stream-Regular :
    (k : FileAnswers) (side : Side) (name : Name) (c : Copied)
    → IsRegular k
    → c.err ≡ none
    → copy_stream k side name c ≡ record c { err = some (open_fifo_error name file_is_not_fifo) }
unfolding copy_stream check_or_create_fifo get_or_create_handle
stream-Regular k side name c h e = ground (arith, h.found 3)

stream-NamedPipe :
    (k : FileAnswers) (side : Side) (name : Name) (c : Copied)
    → IsNamedPipe k
    → c.err ≡ none
    → copy_stream k side name c
      ≡ record c { copying = c.copying ++ (side ∷ []); waiting = c.waiting + 1 }
unfolding copy_stream check_or_create_fifo get_or_create_handle
stream-NamedPipe k side name c h e = ground (arith, h.found 3)

stream-failed :
    (k : FileAnswers) (side : Side) (name : Name) (c : Copied) {e : IoError}
    → c.err ≡ some e
    → copy_stream k side name c ≡ c
unfolding copy_stream
stream-failed k side name c h = ground arith

-- The outcome of the log that is made, and of the check before it.
abbrev Advances : Side → Copied → Copied → Type 0
Advances side c c' =
    (c' ≡ record c { copying = c.copying ++ (side ∷ []); waiting = c.waiting + 1 })
    ⊎ ((e : IoError) × (c' ≡ record c { err = some e }))

logger-Advances :
    (side : Side) (name : Name) (m : Made) (c : Copied)
    → Advances side c (logger_made side name m c)
unfolding logger_made
logger-Advances side name (made h) c = inl refl
logger-Advances side name (refused e files) c = inr (open_fifo_error name e, refl)

checked-Advances :
    (side : Side) (name : Name) (r : Bool × Option FileError) (m : Made) (c : Copied)
    → Advances side c (fifo_checked side name r m c)
unfolding fifo_checked
checked-Advances side name (ok, some e) m c = inr (check_fifo_error name e, refl)
checked-Advances side name (ok, none) m c = logger-Advances side name m c

stream-checked :
    (k : FileAnswers) (side : Side) (name : Name) (c : Copied)
    → c.err ≡ none
    → copy_stream k side name c
      ≡ fifo_checked side name (check_or_create_fifo k.rounds) (new_logger k.handle_calls) c
unfolding copy_stream
stream-checked k side name c h = rw h

stream-Advances :
    (k : FileAnswers) (side : Side) (name : Name) (c : Copied)
    → c.err ≡ none
    → Advances side c (copy_stream k side name c)
stream-Advances k side name c h =
    rw (stream-checked k side name c h)
      (checked-Advances side name (check_or_create_fifo k.rounds) (new_logger k.handle_calls) c)

first_fails :
    (kernel : Side → Name → FileAnswers) (out err : Name) (e : IoError)
    → copy_stream (kernel to_stdout out) to_stdout out nothing_copied
      ≡ record nothing_copied { err = some e }
    → copy_pipes kernel out err ≡ record nothing_copied { err = some e }
unfolding copy_pipes
first_fails kernel out err e h = rw h (
    stream-failed (kernel to_stderr err) to_stderr err (record nothing_copied { err = some e })
      refl)

-- What is left to the second stream when the first is copied.
abbrev first_copied : Copied
first_copied = record nothing_copied { copying = to_stdout ∷ []; waiting = 1 }

second_stream :
    (kernel : Side → Name → FileAnswers) (out err : Name)
    → copy_stream (kernel to_stdout out) to_stdout out nothing_copied ≡ first_copied
    → copy_pipes kernel out err ≡ copy_stream (kernel to_stderr err) to_stderr err first_copied
unfolding copy_pipes
second_stream kernel out err h = rw h

copy-pipes :
    (p : ProcessIo) (kernel : Side → Name → FileAnswers)
    → p.copies ≡ true
    → copy p kernel ≡ copy_pipes kernel p.stdio.stdout p.stdio.stderr
unfolding copy
copy-pipes p kernel h = rw h

created-fifo :
    (s : Stdio) (a : CreateAnswers) (p : ProcessIo)
    → (a.uri.scheme ≡ fifo_scheme) ⊎ (a.uri.scheme ≡ empty_scheme)
    → create_io false s a ≡ created p
    → (p.copies ≡ true) × (p.stdio ≡ s) × (p.io ≡ with_conditional_io s)
unfolding create_io
created-fifo s a p k e = ground arith

created-file :
    (s : Stdio) (a : CreateAnswers) (p : ProcessIo)
    → a.uri.scheme ≡ file_scheme
    → create_io false s a ≡ created p
    → (p.copies ≡ true) × (p.stdio ≡ record s { stdout = a.uri.path; stderr = a.uri.path })
unfolding create_io
created-file s a p k e = ground arith

-- A process without stdout, whose other streams are fifos: `createIO` leaves out the pipe for stdout, but
-- `Copy` fails and copies nothing, since it makes a fifo of every name. The empty name is taken to be
-- no file, and none that can be made.
missing_stdout_fails :
    (s : Stdio) (a : CreateAnswers) (p : ProcessIo) (kernel : Side → Name → FileAnswers)
    → (a.uri.scheme ≡ fifo_scheme) ⊎ (a.uri.scheme ≡ empty_scheme)
    → create_io false s a ≡ created p
    → IsNameless (kernel to_stdout [])
    → s.stdout ≡ []
    → (p.io ≡ pipe_io (is_given s.stdin) false (is_given s.stderr))
      × (copy p kernel
          ≡ record { copying = []; waiting = 0; err = some (check_fifo_error [] not_exist) })
unfolding with_conditional_io
missing_stdout_fails s a p kernel k e h none_given =
    let (c, t, i) = created-fifo s a p k e in
    (
      i ∙ ap (λ (n : Name). pipe_io (is_given s.stdin) (is_given n) (is_given s.stderr)) none_given,
      rw (copy-pipes p kernel c, t, none_given)
          (first_fails kernel [] s.stderr _ (stream-Nameless _ to_stdout [] _ h refl)),
    )

-- A process without stderr, whose stdout is a fifo that can be opened: `createIO` leaves out the pipe for
-- stderr, but `Copy` fails, since it makes a fifo of every name, with the copying of stdout begun,
-- for which the process waits. The empty name is taken to be no file, and none that can be made.
pub missing_stderr_fails :
    (s : Stdio) (a : CreateAnswers) (p : ProcessIo) (kernel : Side → Name → FileAnswers)
    → (a.uri.scheme ≡ fifo_scheme) ⊎ (a.uri.scheme ≡ empty_scheme)
    → create_io false s a ≡ created p
    → IsNameless (kernel to_stderr [])
    → IsNamedPipe (kernel to_stdout s.stdout)
    → s.stderr ≡ []
    → (p.io ≡ pipe_io (is_given s.stdin) (is_given s.stdout) false)
      × (copy p kernel ≡ record {
        copying = to_stdout ∷ [];
        waiting = 1;
        err = some (check_fifo_error [] not_exist);
      })
unfolding with_conditional_io
missing_stderr_fails s a p kernel k e h pipe not_given =
    let (c, t, i) = created-fifo s a p k e in
    (
      i ∙ ap (λ (n : Name). pipe_io (is_given s.stdin) (is_given s.stdout) (is_given n)) not_given,
      rw (copy-pipes p kernel c, t, not_given)
          (second_stream kernel s.stdout [] (stream-NamedPipe _ to_stdout s.stdout _ pipe refl)
            ∙ stream-Nameless _ to_stderr [] first_copied h refl),
    )

-- A stream that is a regular file (the scheme `file`) is opened by `createIO`, which makes the
-- pipes, but `Copy` fails at the first stream, since a log takes only fifos: nothing is copied.
pub file_scheme_fails :
    (s : Stdio) (a : CreateAnswers) (p : ProcessIo) (kernel : Side → Name → FileAnswers)
    → a.uri.scheme ≡ file_scheme
    → create_io false s a ≡ created p
    → IsRegular (kernel to_stdout a.uri.path)
    → copy p kernel ≡ record {
      copying = [];
      waiting = 0;
      err = some (open_fifo_error a.uri.path file_is_not_fifo);
    }
file_scheme_fails s a p kernel k e h =
    let (c, t) = created-file s a p k e in
    rw (copy-pipes p kernel c, t)
      (first_fails kernel a.uri.path a.uri.path _
        (stream-Regular _ to_stdout a.uri.path nothing_copied h refl))

-- What is said of each outcome of `copyPipes`.
abbrev pub AllOrError : Copied → Type 0
AllOrError c =
    (c.err ≡ none → (c.copying ≡ to_stdout ∷ to_stderr ∷ []) × (c.waiting ≡ 2))
    × (c.err ≢ none → (c.waiting ≡ length c.copying) × (c.waiting < 2))

pipes-AllOrError :
    (kernel : Side → Name → FileAnswers) (out err : Name) → AllOrError (copy_pipes kernel out err)
pipes-AllOrError kernel out err =
    elim (stream-Advances (kernel to_stdout out) to_stdout out nothing_copied refl) [
      | inl p ↦ elim (stream-Advances (kernel to_stderr err) to_stderr err first_copied refl) [
        | inl q ↦ rw (second_stream kernel out err p ∙ q) (λ _. (refl, refl), λ h. absurd (h refl))
        | inr (e, q) ↦ rw (second_stream kernel out err p ∙ q) (λ h. cc, λ _. (refl, omega arith))
      ]
      | inr (e, p) ↦ rw (first_fails kernel out err e p) (λ h. cc, λ _. (refl, omega arith))
    ]

-- On each process with streams to copy, `Copy` without an error has begun to copy both streams, and
-- the process waits for both; with an error it copies at most one, and waits for as many as it copies.
-- Where both names are fifos that can be opened, there is no error.
copy_lem :
    (p : ProcessIo) (kernel : Side → Name → FileAnswers)
    → p.copies ≡ true
    → AllOrError (copy p kernel)
      × (IsNamedPipe (kernel to_stdout p.stdio.stdout)
          → IsNamedPipe (kernel to_stderr p.stdio.stderr)
          → (copy p kernel).err ≡ none)
copy_lem p kernel h = (
  rw (copy-pipes p kernel h) (pipes-AllOrError kernel p.stdio.stdout p.stdio.stderr),
  λ out err. rw (copy-pipes p kernel h) (
      ap (λ (c : Copied). c.err)
        (second_stream kernel p.stdio.stdout p.stdio.stderr
            (stream-NamedPipe _ to_stdout p.stdio.stdout nothing_copied out refl)
          ∙ stream-NamedPipe _ to_stderr p.stdio.stderr first_copied err refl)),
)
