-- ===== src/Streams/Pipes.antt =====
-- The descriptors of the pipes to a log binary, in process/io.go.
use systemd_runtime.Common.{subst, [], ◌∷◌, none, ◌≡◌, ◌≢◌, arith}
use systemd_runtime.Streams.{already_closed}
use systemd_runtime.Streams.Binary.{
  File, opened, closed, Shim, Kernel, Cancel, Made, made, not_made, running, close_error,
  new_binary_io, close_after_start, close, cancel,
}

-- A descriptor that is not open.
abbrev pub IsFree : File → Type 0
IsFree f = f ≢ opened

pub record IsCleared (s : Shim) : Type 0 where
  pub out_r : IsFree s.out_r
  pub out_w : IsFree s.out_w
  pub err_r : IsFree s.err_r
  pub err_w : IsFree s.err_w
  pub ready_r : IsFree s.ready_r
  pub ready_w : IsFree s.ready_w
  pub child : s.child ≢ running

-- What `NewBinaryIO` returns: both pipes with both ends, and the log binary that runs. Of the third
-- pipe the read end is open too.
pub record IsReady (s : Shim) : Type 0 where
  pub out_r : s.out_r ≡ opened
  pub out_w : s.out_w ≡ opened
  pub err_r : s.err_r ≡ opened
  pub err_w : s.err_w ≡ opened
  pub ready_r : s.ready_r ≡ opened
  pub ready_w : s.ready_w ≡ closed
  pub child : s.child ≡ running

-- What is said of each outcome of `NewBinaryIO`.
abbrev pub ReadyOrCleared : Made → Type 0
ReadyOrCleared (made s) = IsReady s
ReadyOrCleared (not_made s errs) = IsCleared s × (errs ≢ [])

-- `NewBinaryIO` that fails, at whichever call, leaves no descriptor of the three pipes open and no log
-- binary that was not asked to be killed, and returns an error. If it succeeds, the two pipes are open
-- at both ends and the log binary runs; of the third pipe the write end is closed and the read end
-- open.
pub new_binary_io_lem : (k : Kernel) → ReadyOrCleared (new_binary_io k)
unfolding new_binary_io
new_binary_io_lem k = ground arith

made-IsReady : (k : Kernel) (s : Shim) → new_binary_io k ≡ made s → IsReady s
made-IsReady k s h = subst ReadyOrCleared h (new_binary_io_lem k)

-- From `NewBinaryIO` on to the end of the process: after the start its read ends are closed, without an
-- error, and `Close` closes the write ends and ends the log binary. But `Close` always returns two
-- errors, since it closes the read ends again, and then those of ending the binary; and the read end of
-- the third pipe is still open. Closing an open descriptor is taken to succeed.
close_after_start_lem :
    (k : Kernel) (c : Cancel) (s : Shim)
    → new_binary_io k ≡ made s
    → k.close ≡ none
    → ((close_after_start k s).1 ≡ [])
      × ((close_after_start k s).0 ≡ record s { out_r = closed; err_r = closed })
      × (close k c (close_after_start k s).0 ≡ (
        record s {
          out_r = closed;
          out_w = closed;
          err_r = closed;
          err_w = closed;
          child = (cancel c s).0.child;
        },
        close_error already_closed ∷ close_error already_closed ∷ (cancel c s).1,
      ))
      × ((close k c (close_after_start k s).0).0.ready_r ≡ opened)
      × ((cancel c s).0.child ≢ running)
unfolding close_after_start close cancel
close_after_start_lem k c s h e = ground (arith, made-IsReady k s h)
