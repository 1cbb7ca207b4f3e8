-- ===== src/Memcache/Flush.antt =====
-- `memCachedLog.flushBufferToFifo` of tasklog/memcache.go, when the fifo takes what it is given.
use mathlib.Core.List.{append_assoc, append-nil}
use systemd_runtime.Common.{
  ◌≡◌, refl, ap, sym, ◌∙◌, none, some, List, [], ◌∷◌, ◌++◌, arith, length, take-all, map, true,
  false,
}
use systemd_runtime.Queue.{ByteSlice, peek_head, is_empty}
use systemd_runtime.Queue.Cells.{contents}
use systemd_runtime.Queue.Refine.{
  contents-pop_head, list_pop, list_head, peek_head-contents, length-contents,
}
use systemd_runtime.Memcache.{
  MemCachedLog, pop_buffer, fifo_write, slice_bytes, slice_len, done, Reply, lock_free_write_fifo,
  after_write, flush_buffer_to_fifo, flush_round, after_round, go_on,
}
use systemd_runtime.Memcache.Inv.{IsValid, fifo_write-IsValid, pop_buffer-IsValid}
use systemd_runtime.Memcache.Stream.{bytes_of}

-- The round at a log whose oldest slice is `b`.
pub flush_round_at :
    (log : MemCachedLog) (b : ByteSlice) (bs : List ByteSlice) (r : Reply)
    → IsValid log
    → contents log.buffer ≡ b ∷ bs
    → flush_round log r ≡ after_round b (after_write (fifo_write log b r.cnt) b r.cnt r.err)
unfolding flush_round lock_free_write_fifo
flush_round_at log b bs r v e =
    let head : peek_head log.buffer ≡ some b =
      peek_head-contents log.buffer v.queue ∙ ap list_head e in
    rw (head, flush_round)

-- A log with waiting slices is not empty, and one without is.
pub is_empty_of_cons :
    (log : MemCachedLog) (b : ByteSlice) (bs : List ByteSlice)
    → IsValid log
    → contents log.buffer ≡ b ∷ bs
    → is_empty log.buffer ≡ false
is_empty_of_cons log b bs v e =
    let size : length (b ∷ bs) ≡ log.buffer.size = rw e at (length-contents log.buffer v.queue) in
    ground arith

pub is_empty_of_nil :
    (log : MemCachedLog) → IsValid log → contents log.buffer ≡ [] → is_empty log.buffer ≡ true
is_empty_of_nil log v e =
    let size : length (contents log.buffer) ≡ log.buffer.size =
      length-contents log.buffer v.queue in
    ground arith

-- The reply of a fifo that takes the whole slice.
abbrev pub accept : ByteSlice → Reply
accept b = record { cnt = slice_len b; err = none }

-- The first round's outcome decides the rest of the flush.
pub flush_cons :
    (log log' : MemCachedLog) (r : Reply) (rs : List Reply)
    → is_empty log.buffer ≡ false
    → flush_round log r ≡ go_on log'
    → flush_buffer_to_fifo (r ∷ rs) log ≡ flush_buffer_to_fifo rs log'
unfolding flush_buffer_to_fifo
flush_cons log log' r rs e g = rw (e, g)

pub contents-pop_buffer :
    (log : MemCachedLog) (b : ByteSlice) (bs : List ByteSlice)
    → IsValid log
    → contents log.buffer ≡ b ∷ bs
    → contents (pop_buffer log).buffer ≡ bs
unfolding pop_buffer
contents-pop_buffer log b bs v e =
    ap (λ p. p.1) (contents-pop_head log.buffer v.queue) ∙ ap (λ l. (list_pop l).1) e

-- A round in which the fifo takes the oldest slice.
accept_round :
    (log : MemCachedLog) (b : ByteSlice) (bs : List ByteSlice)
    → IsValid log
    → contents log.buffer ≡ b ∷ bs
    → (log' : MemCachedLog) × (flush_round log (accept b) ≡ go_on log')
      × IsValid log'
      × (contents log'.buffer ≡ bs)
      × (log'.fifo.taken ≡ log.fifo.taken ++ slice_bytes b)
      × (log'.closed ≡ log.closed)
unfolding after_round after_write fifo_write pop_buffer
accept_round log b bs v e = (
  pop_buffer (fifo_write log b (slice_len b)),
  flush_round_at log b bs (accept b) v e,
  pop_buffer-IsValid (fifo_write log b (slice_len b)) (fifo_write-IsValid log b (slice_len b) v),
  contents-pop_buffer log b bs v e,
  ap (λ l. log.fifo.taken ++ l) (take-all (slice_len b) (slice_bytes b) (omega arith)),
  refl,
)

flush_empty :
    (rs : List Reply) (log : MemCachedLog)
    → is_empty log.buffer ≡ true
    → flush_buffer_to_fifo rs log ≡ done log
unfolding flush_buffer_to_fifo
flush_empty [] log e = rw e
flush_empty (r ∷ rs) log e = rw e

-- What a flush of the slices `bs` leaves, if the fifo takes them all.
pub record Flushed (log : MemCachedLog) (bs : List ByteSlice) (log' : MemCachedLog) : Type 0 where
  pub valid : IsValid log'
  pub drained : contents log'.buffer ≡ []
  pub sent : log'.fifo.taken ≡ log.fifo.taken ++ bytes_of bs
  pub same : log'.closed ≡ log.closed

-- If the fifo takes each waiting slice whole, the flush returns with an empty buffer, and the fifo
-- has taken all waiting bytes, in order; later replies are not asked for.
pub flush_accepts :
    (bs : List ByteSlice) (rs : List Reply) (log : MemCachedLog)
    → IsValid log
    → contents log.buffer ≡ bs
    → (log' : MemCachedLog) × (flush_buffer_to_fifo (map accept bs ++ rs) log ≡ done log')
      × Flushed log bs log'
flush_accepts [] rs log v e = (
  log,
  flush_empty rs log (is_empty_of_nil log v e),
  record { valid = v; drained = e; sent = sym (append-nil log.fifo.taken); same = refl },
)
flush_accepts (b ∷ bs) rs log v e =
    let (log1, step, v1, rest, took, same1) = accept_round log b bs v e in
    let (log2, eq, f) = flush_accepts bs rs log1 v1 rest in
    (
      log2,
      flush_cons log log1 (accept b) (map accept bs ++ rs) (is_empty_of_cons log b bs v e) step
          ∙ eq,
      record {
        valid = f.valid;
        drained = f.drained;
        sent =
            f.sent
            ∙ ap (λ l. l ++ bytes_of bs) took
            ∙ append_assoc log.fifo.taken (slice_bytes b) (bytes_of bs);
        same = f.same ∙ same1;
      },
    )
