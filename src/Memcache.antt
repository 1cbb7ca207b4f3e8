-- ===== src/Memcache.antt =====
-- tasklog/memcache.go: the writer that keeps task logs in memory while the fifo of the log reader
-- is not open. The log keeps the slices that it is given, not copies: the numbers in a slice are the
-- places of its bytes in the memory of the caller (the log itself never looks at a byte). Every
-- method runs under `log.Mutex`, which Go does not let its holder lock again.
pub mod Inv
pub mod Stream
pub mod Write
pub mod Flush
pub mod Faults
pub mod Shared
pub mod Copying
pub mod Overwritten
mod Examples
use systemd_runtime.Common.{
  ℕ, ◌+◌, ◌≡◌, List, [], ◌∷◌, ◌++◌, Option, none, some, Bool, true, false, ◌&&◌, ◌==◌,
  if◌then◌else◌, length, take, drop,
}
use systemd_runtime.Queue.{
  BytesQueue, ByteSlice, new_bytes_queue, push_tail, pop_head, peek_head, set_head, is_empty,
}

abbrev pub mem_limit : ℕ
mem_limit = 1024

-- `ErrFifoClosed`, `ErrFifoNotOpened`, and the errors of the file below.
pub data WriteError : Type 0 where
  fifo_closed fifo_not_opened : WriteError
  other : ℕ → WriteError

-- What one call of `log.fifo.Write` returns.
pub record Reply : Type 0 where
  pub cnt : ℕ
  pub err : Option WriteError

-- The fifo as the log sees it: the places whose bytes it has taken, and how often it was closed.
pub record Sink : Type 0 where
  pub taken : List ℕ
  pub closes : ℕ

pub record MemCachedLog : Type 0 where
  pub fifo : Sink
  pub buffer : BytesQueue
  pub closed : Bool

-- A call returns, or it waits for ever for the mutex that it holds, or it has used up the given
-- replies of the fifo and is in the next call of `fifo.Write`.
pub data Outcome (A : Type 0) : Type 0 where
  done : A → Outcome A
  deadlock : Outcome A
  running : MemCachedLog → Outcome A

-- The places of the bytes of a slice.
abbrev pub slice_bytes : ByteSlice → List ℕ
slice_bytes none = []
slice_bytes (some b) = b

abbrev pub slice_len : ByteSlice → ℕ
slice_len b = length (slice_bytes b)

-- `b[cnt:]`
abbrev pub slice_from : ByteSlice → ℕ → ByteSlice
slice_from none cnt = none
slice_from (some b) cnt = some (drop cnt b)

unfoldable pub new_mem_cached_log : MemCachedLog
new_mem_cached_log = record {
  fifo = record { taken = []; closes = 0 };
  buffer = new_bytes_queue;
  closed = false;
}

pub unlocked_push_buffer : MemCachedLog → ByteSlice → MemCachedLog
unlocked_push_buffer log bytes =
    let q = if log.buffer.size == mem_limit then (pop_head log.buffer).1 else log.buffer in
    record log { buffer = push_tail q bytes }

-- `log.fifo.Write(b)`: the fifo takes the first `cnt` bytes.
pub fifo_write : MemCachedLog → ByteSlice → ℕ → MemCachedLog
fifo_write log b cnt = record log {
  fifo = record (log.fifo) { taken = log.fifo.taken ++ take cnt (slice_bytes b) };
}

pub fifo_close : MemCachedLog → MemCachedLog
fifo_close log = record log { fifo = record (log.fifo) { closes = log.fifo.closes + 1 } }

-- The tests of `lockFreeWriteFifo` on the error. `log.Close()` locks the mutex that the caller holds.
pub after_write :
    MemCachedLog
    → ByteSlice
    → ℕ
    → Option WriteError
    → Outcome (MemCachedLog × ℕ × Option WriteError)
after_write log b cnt none = done (log, cnt, none)
after_write log b cnt (some fifo_not_opened) = done (unlocked_push_buffer log b, slice_len b, none)
after_write log b cnt (some fifo_closed) = deadlock
after_write log b cnt (some (other e)) =
    if cnt == slice_len b
    then done (log, 0, none)
    else done (unlocked_push_buffer log (slice_from b cnt), slice_len b, none)

pub lock_free_write_fifo :
    MemCachedLog → ByteSlice → Reply → Outcome (MemCachedLog × ℕ × Option WriteError)
unfolding after_write
lock_free_write_fifo log b r = after_write (fifo_write log b r.cnt) b r.cnt r.err

-- `Write`; the reply is that of the fifo, if it is called.
pub write : MemCachedLog → ByteSlice → Reply → Outcome (MemCachedLog × ℕ × Option WriteError)
write log b r =
    if log.closed
    then done (log, 0, some fifo_closed)
    else if is_empty log.buffer
    then lock_free_write_fifo log b r
    else done (unlocked_push_buffer log b, slice_len b, none)

pub close : MemCachedLog → MemCachedLog
close log =
    let log' = record log { closed = true } in if is_empty log.buffer then fifo_close log' else log'

pub pop_buffer : MemCachedLog → MemCachedLog
pop_buffer log = record log { buffer = (pop_head log.buffer).1 }

-- What the loop of `flushBufferToFifo` does with what `lockFreeWriteFifo(*buff)` returned: go on
-- with the log, or return it.
pub data Round : Type 0 where
  go_on return_with : MemCachedLog → Round
  stuck : Round

pub after_round : ByteSlice → Outcome (MemCachedLog × ℕ × Option WriteError) → Round
after_round b (done (log, cnt, none)) = go_on (pop_buffer log)
after_round b (done (log, cnt, some e)) =
    if cnt == slice_len b
    then return_with (pop_buffer log)
    else return_with (record log { buffer = set_head log.buffer (slice_from b cnt) })
after_round b deadlock = stuck
after_round b (running log) = stuck

-- One round at a buffer that is not empty.
pub flush_round : MemCachedLog → Reply → Round
unfolding lock_free_write_fifo after_round pop_buffer
flush_round log r = elim (peek_head log.buffer) [
  | none ↦ return_with log
  | some b ↦ after_round b (lock_free_write_fifo log b r)
]

-- `flushBufferToFifo`, given the fifo's replies in order.
pub flush_buffer_to_fifo : List Reply → MemCachedLog → Outcome MemCachedLog
unfolding flush_round
flush_buffer_to_fifo [] log = if is_empty log.buffer then done log else running log
flush_buffer_to_fifo (r ∷ rs) log =
    if is_empty log.buffer then done log else elim (flush_round log r) [
      | go_on log' ↦ flush_buffer_to_fifo rs log'
      | return_with log' ↦ done log'
      | stuck ↦ deadlock
    ]

-- The body of the loop of `handleFifoSignal` below the flush.
pub close_if_drained : MemCachedLog → MemCachedLog
close_if_drained log = if log.closed && is_empty log.buffer then fifo_close log else log

pub handle_signal : List Reply → MemCachedLog → Outcome MemCachedLog
unfolding close_if_drained
handle_signal rs log = elim (flush_buffer_to_fifo rs log) [
  | done log' ↦ done (close_if_drained log')
  | deadlock ↦ deadlock
  | running log' ↦ running log'
]
