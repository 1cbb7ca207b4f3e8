-- ===== src/Fifo.antt =====
-- tasklog/fifo.go: the holder that opens a fifo in the background, and opens it again after a failed
-- write. Goroutines that wait are counted by what they are about to do; a run of the program is a
-- sequence of the steps below. Each holds the mutex of the holder, but that closing files and making a
-- handle, which touch no field, are put in one step with what follows them.
pub mod Resources
pub mod Replies
pub mod Deadlock
mod Examples
use systemd_runtime.Common.{
  ℕ, suc, ◌+◌, ◌-◌, List, [], ◌∷◌, ◌++◌, Option, none, some, Bool, true, false, if◌then◌else◌,
  is_some, drop,
}
use systemd_runtime.Memcache.{WriteError, Reply, fifo_closed, fifo_not_opened}

-- `fifo` and `handle` say whether the fields are set. `senders` are the channels of the goroutines of
-- `Signal`; `sending` those that `syncOpenFifo` has yet to send to, with the mutex held. `opening`,
-- `resetting` and `closing` count the goroutines in `syncOpenFifo`, in `unlockedReset` and in
-- `unlockedClose`. The last four fields count what was made and closed.
pub record FifoHolder : Type 0 where
  pub closed : Bool
  pub fifo : Bool
  pub handle : Bool
  pub signal_chs : List ℕ
  pub senders : List ℕ
  pub sending : List ℕ
  pub closed_chs : List ℕ
  pub next_channel : ℕ
  pub opening : ℕ
  pub resetting : ℕ
  pub closing : ℕ
  pub handles_made : ℕ
  pub handles_closed : ℕ
  pub fifos_opened : ℕ
  pub fifos_closed : ℕ

-- `newFifo`, where the handle can be made: its goroutine is in `syncOpenFifo`.
unfoldable pub new_fifo : FifoHolder
new_fifo = record {
  closed = false;
  fifo = false;
  handle = false;
  signal_chs = [];
  senders = [];
  sending = [];
  closed_chs = [];
  next_channel = 0;
  opening = 1;
  resetting = 0;
  closing = 0;
  handles_made = 1;
  handles_closed = 0;
  fifos_opened = 0;
  fifos_closed = 0;
}

-- `Signal`: the new channel.
unfoldable pub signal : FifoHolder → FifoHolder × ℕ
signal h =
    let ch = h.next_channel in
    (
      record h {
        next_channel = suc ch;
        signal_chs = h.signal_chs ++ (ch ∷ []);
        senders = if h.fifo then h.senders ++ (ch ∷ []) else h.senders;
      },
      ch,
    )

-- `unlockedReset` up to the start of its goroutine.
unfoldable pub unlocked_reset : FifoHolder → FifoHolder
unlocked_reset h = record h { fifo = false; handle = false; resetting = h.resetting + 1 }

-- `Write`; the reply is that of the open file, if it is written to.
unfoldable pub write : FifoHolder → Reply → FifoHolder × Reply
write h r =
    if h.closed
    then (h, record { cnt = 0; err = some fifo_closed })
    else if h.fifo
    then (if is_some r.err then (unlocked_reset h, r) else (h, r))
    else (h, record { cnt = 0; err = some fifo_not_opened })

-- `unlockedClose` closes the channels, and leaves the fifo to a goroutine.
unfoldable pub unlocked_close : FifoHolder → FifoHolder
unlocked_close h = if h.closed then h else record h {
  closed = true;
  fifo = false;
  closed_chs = h.closed_chs ++ h.signal_chs;
  closing = if h.fifo then h.closing + 1 else h.closing;
}

-- `Close` gives no error.
unfoldable pub close : FifoHolder → FifoHolder
close h = unlocked_close h

-- The goroutine of `unlockedClose`.
unfoldable pub finish_close : FifoHolder → FifoHolder
finish_close h = record h { closing = h.closing - 1; fifos_closed = h.fifos_closed + 1 }

-- `syncOpenFifo` from the return of `OpenFifo` on, up to the first send.
unfoldable pub sync_open_fifo : FifoHolder → (failed : Bool) → FifoHolder
sync_open_fifo h failed =
    let t = record h { opening = h.opening - 1 } in
    if failed
    then close (record t { handles_closed = t.handles_closed + 1 })
    else if h.closed
    then record t {
      fifos_opened = t.fifos_opened + 1;
      fifos_closed = t.fifos_closed + 1;
      handles_closed = t.handles_closed + 1;
    }
    else record t {
      fifos_opened = t.fifos_opened + 1;
      handle = true;
      fifo = true;
      sending = t.signal_chs;
    }

-- The goroutine of `unlockedReset` up to `syncOpenFifo`.
unfoldable pub finish_reset : FifoHolder → (failed : Bool) → FifoHolder
finish_reset h failed =
    let t = record h {
      resetting = h.resetting - 1;
      fifos_closed = h.fifos_closed + 1;
      handles_closed = h.handles_closed + 1;
    } in
    if failed
    then close t
    else record t { handles_made = t.handles_made + 1; opening = t.opening + 1 }

-- The next send of `syncOpenFifo` is received.
unfoldable pub sent_next : FifoHolder → FifoHolder
sent_next h = record h { sending = drop 1 h.sending }
