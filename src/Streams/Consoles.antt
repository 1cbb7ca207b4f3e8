-- ===== src/Streams/Consoles.antt =====
-- What `CopyConsole` of runc/platform.go leaves behind.
use systemd_runtime.Common.{◌↔◌, if◌then◌else◌, Bool, true, false, ◌≡◌, ◌≢◌, arith}
use systemd_runtime.Streams.{Name}
use systemd_runtime.Streams.Binary.{opened, closed}
use systemd_runtime.Streams.Io.{is_given, binary_scheme}
use systemd_runtime.Streams.Console.{
  ConsoleError, Kernel, Copied, copied, not_copied, copy_console, start_error, err_pipe_error,
  ready_pipe_error,
}

-- The pipe for stderr or that for the readiness cannot be made.
abbrev pub is_late_pipe : ConsoleError → Bool
is_late_pipe (err_pipe_error e) = true
is_late_pipe (ready_pipe_error e) = true
is_late_pipe e = false

-- The binary cannot be started.
abbrev pub is_start : ConsoleError → Bool
is_start (start_error e) = true
is_start e = false

-- What is said of each outcome of `CopyConsole` to a log binary.
abbrev pub LeftOpen : (stdin : Name) → Copied → Type 0
LeftOpen stdin (not_copied c e) =
    (c.out_r ≢ opened)
    × (c.err_r ≢ opened)
    × (c.ready_r ≢ opened)
    × ((c.err_w ≡ opened) ↔ (c.err_r ≡ closed))
    × ((c.ready_w ≡ opened) ↔ (is_start e ≡ true))
    × (((c.out_w ≡ opened) × (c.copies_stdout ≡ false)) ↔ (is_late_pipe e ≡ true))
    × (c.waiting ≡ (if c.copies_stdout then 1 else 0))
LeftOpen stdin (copied c) =
    (c.copies_stdout ≡ true)
    × (c.waiting ≡ 1)
    × (c.copies_stdin ≡ is_given stdin)
    × (c.binary_started ≡ true)
    × (c.out_r ≡ opened)
    × (c.err_r ≡ opened)
    × (c.ready_r ≡ opened)
    × (c.err_w ≡ opened)
    × (c.ready_w ≡ closed)

-- `CopyConsole` to a log binary. If it fails, no read end that it made is open, but write ends are: that
-- for stderr exactly if its pipe was made, since the method drops it; that for the readiness exactly
-- if the binary cannot be started; that for stdout, with no goroutine to close it, exactly if one of
-- the two other pipes cannot be made. The process waits for the goroutine if there is one. If it
-- succeeds, a goroutine copies the console to the pipe, the process waits for it, stdin is copied
-- exactly if it is given, the binary is started, and the three read ends are still open here, like
-- the write end for stderr.
pub copy_console_lem :
    (stdin : Name) (k : Kernel) → k.scheme ≡ binary_scheme → LeftOpen stdin (copy_console stdin k)
unfolding copy_console
copy_console_lem stdin k s = ground arith
