-- ===== src/Memcache/Inv.antt =====
-- What holds of a `memCachedLog` (tasklog/memcache.go) between two calls: its queue is valid and
-- holds no more than `MEM_LIMIT` slices, and the buffer of the queue stays small.
use systemd_runtime.Common.{
  Option, if◌then◌else◌, ℕ, ◌≤◌, ◌<◌, none, some, Bool-cases, inl, inr, arith, length, ◌==◌,
}
use systemd_runtime.Queue
use systemd_runtime.Queue.{BytesQueue, ByteSlice, push_tail, pop_head, is_empty}
use systemd_runtime.Queue.Inv.{push_tail-IsValid, push_tail-nil, pop_head-IsValid, new-IsValid}
use systemd_runtime.Queue.Refine.{size-push_tail, size-pop_head}
use systemd_runtime.Queue.Bounds.{length-push_tail, length-push_tail_ge, length-pop_head}
use systemd_runtime.Memcache.{
  MemCachedLog, mem_limit, new_mem_cached_log, unlocked_push_buffer, pop_buffer, close, fifo_write,
  fifo_close, after_write, Outcome, done, deadlock, running, WriteError, fifo_closed,
  fifo_not_opened, other, slice_len, slice_from,
}

pub record IsValid (log : MemCachedLog) : Type 0 where
  pub queue : Queue.Inv.IsValid log.buffer
  pub limited : log.buffer.size ≤ 1024
  pub floor : 5 ≤ length log.buffer.buffer
  pub ceiling : length log.buffer.buffer ≤ 1536

-- The same of a queue that has room for one more slice.
record HasRoom (q : BytesQueue) : Type 0 where
  queue : Queue.Inv.IsValid q
  room : q.size < 1024
  floor : 5 ≤ length q.buffer
  ceiling : length q.buffer ≤ 1536

pub new-IsValid_log : IsValid new_mem_cached_log
unfolding new_mem_cached_log
new-IsValid_log = record {
  queue = new-IsValid;
  limited = omega arith;
  floor = omega arith;
  ceiling = omega arith;
}

push_room :
    (log : MemCachedLog) (q : BytesQueue) (b : ByteSlice)
    → HasRoom q
    → IsValid (record log { buffer = push_tail q b })
push_room log q none r =
    rw (push_tail-nil q)
      (record { queue = r.queue; limited = omega arith; floor = r.floor; ceiling = r.ceiling })
push_room log q (some b) r = record {
  queue = push_tail-IsValid q (some b) r.queue;
  limited = omega (arith, size-push_tail q b r.queue);
  floor = omega (arith, length-push_tail_ge q (some b) r.queue);
  ceiling = omega (arith, length-push_tail q (some b) 1024 r.queue r.room);
}

-- The queue that `unlockedPushBuffer` pushes to.
abbrev pub room_made : MemCachedLog → BytesQueue
room_made log = if log.buffer.size == mem_limit then (pop_head log.buffer).1 else log.buffer

room_made-HasRoom : (log : MemCachedLog) → IsValid log → HasRoom (room_made log)
room_made-HasRoom log v = elim (Bool-cases (log.buffer.size == mem_limit)) [
  | inl full ↦ rw full record {
    queue = pop_head-IsValid log.buffer v.queue;
    room = omega (arith, size-pop_head log.buffer v.queue);
    floor = (length-pop_head log.buffer v.queue v.floor).0;
    ceiling = omega (arith, length-pop_head log.buffer v.queue v.floor);
  }
  | inr free ↦
      rw free record { queue = v.queue; room = ground arith; floor = v.floor; ceiling = v.ceiling }
]

pub unlocked_push_buffer-IsValid :
    (log : MemCachedLog) (b : ByteSlice) → IsValid log → IsValid (unlocked_push_buffer log b)
unfolding unlocked_push_buffer
unlocked_push_buffer-IsValid log b v = push_room log (room_made log) b (room_made-HasRoom log v)

pub pop_buffer-IsValid : (log : MemCachedLog) → IsValid log → IsValid (pop_buffer log)
unfolding pop_buffer
pop_buffer-IsValid log v = record {
  queue = pop_head-IsValid log.buffer v.queue;
  limited = omega (arith, size-pop_head log.buffer v.queue);
  floor = (length-pop_head log.buffer v.queue v.floor).0;
  ceiling = omega (arith, length-pop_head log.buffer v.queue v.floor);
}

-- The fifo is no part of the invariant.
pub fifo_write-IsValid :
    (log : MemCachedLog) (b : ByteSlice) (cnt : ℕ) → IsValid log → IsValid (fifo_write log b cnt)
unfolding fifo_write
fifo_write-IsValid log b cnt v = record {
  queue = v.queue;
  limited = v.limited;
  floor = v.floor;
  ceiling = v.ceiling;
}

close-IsValid : (log : MemCachedLog) → IsValid log → IsValid (close log)
unfolding close fifo_close
close-IsValid log v = elim (Bool-cases (is_empty log.buffer)) [
  | inl e ↦
      rw e record { queue = v.queue; limited = v.limited; floor = v.floor; ceiling = v.ceiling }
  | inr e ↦
      rw e record { queue = v.queue; limited = v.limited; floor = v.floor; ceiling = v.ceiling }
]

-- A property of the log in every outcome that has one.
abbrev pub AllLogs :
    {A : Type 0} → (MemCachedLog → Type 0) → (A → MemCachedLog) → Outcome A → Type 0
AllLogs P log_of (done a) = P (log_of a)
AllLogs P log_of deadlock = Unit
AllLogs P log_of (running log) = P log

pub after_write-IsValid :
    (log : MemCachedLog) (b : ByteSlice) (cnt : ℕ) (err : Option WriteError)
    → IsValid log
    → AllLogs IsValid (λ r. r.0) (after_write log b cnt err)
unfolding after_write
after_write-IsValid log b cnt none v = v
after_write-IsValid log b cnt (some fifo_not_opened) v = unlocked_push_buffer-IsValid log b v
after_write-IsValid log b cnt (some fifo_closed) v = tt
after_write-IsValid log b cnt (some (other e)) v = elim (Bool-cases (cnt == slice_len b)) [
  | inl all ↦ rw all v
  | inr part ↦ rw part (unlocked_push_buffer-IsValid log (slice_from b cnt) v)
]
