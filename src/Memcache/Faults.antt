-- ===== src/Memcache/Faults.antt =====
-- `memCachedLog` of tasklog/memcache.go when the fifo does not take what it is given:
-- `lockFreeWriteFifo` pushes to the buffer that `flushBufferToFifo` is emptying.
use mathlib.Core.List.{append-nil}
use systemd_runtime.Common.{
  ℕ, zero, suc, ◌<◌, ◌≡◌, ◌≢◌, refl, ap, sym, ◌∙◌, some, List, [], ◌∷◌, ◌++◌, Bool-cases, inl, inr,
  arith, length, ◌==◌, ==→eq, take, drop, map, false, replicate, length-append,
}
use systemd_runtime.Queue.{ByteSlice, is_empty}
use systemd_runtime.Queue.Cells.{contents}
use systemd_runtime.Queue.Refine.{list_pop, length-contents}
use systemd_runtime.Memcache.{
  MemCachedLog, unlocked_push_buffer, pop_buffer, fifo_write, slice_bytes, done, deadlock, running,
  Reply, fifo_not_opened, fifo_closed, other, write, lock_free_write_fifo, after_write,
  flush_buffer_to_fifo, flush_round, after_round, go_on, stuck,
}
use systemd_runtime.Memcache.Inv.{
  IsValid, fifo_write-IsValid, pop_buffer-IsValid, unlocked_push_buffer-IsValid,
}
use systemd_runtime.Memcache.Stream.{
  bytes_of, contents-unlocked_push_buffer, contents-unlocked_push_buffer_full,
  taken-unlocked_push_buffer,
}
use systemd_runtime.Memcache.Flush.{
  is_empty_of_nil, flush_round_at, flush_cons, is_empty_of_cons, accept, contents-pop_buffer,
  flush_accepts,
}

-- A fifo that takes the first `cnt` bytes of the oldest slice and gives an error that is not
-- `ErrFifoClosed`: the round ends without one, with the log below.
abbrev after_push : MemCachedLog → ByteSlice → ℕ → ByteSlice → MemCachedLog
after_push log b cnt rest = pop_buffer (unlocked_push_buffer (fifo_write log b cnt) rest)

-- Below the limit the rest of the oldest slice goes behind the others.
contents-after_push :
    (log : MemCachedLog) (b : ByteSlice) (bs : List ByteSlice) (cnt : ℕ) (rest : List ℕ)
    → IsValid log
    → contents log.buffer ≡ b ∷ bs
    → log.buffer.size < 1024
    → contents (after_push log b cnt (some rest)).buffer ≡ bs ++ (some rest ∷ [])
unfolding fifo_write
contents-after_push log b bs cnt rest v e room =
    contents-pop_buffer (unlocked_push_buffer (fifo_write log b cnt) (some rest)) b
      (bs ++ (some rest ∷ []))
      (unlocked_push_buffer-IsValid (fifo_write log b cnt) (some rest)
        (fifo_write-IsValid log b cnt v))
      (contents-unlocked_push_buffer (fifo_write log b cnt) rest (fifo_write-IsValid log b cnt v)
          room
        ∙ ap (λ l. l ++ (some rest ∷ [])) e)

taken-after_push :
    (log : MemCachedLog) (b rest : ByteSlice) (cnt : ℕ)
    → (after_push log b cnt rest).fifo.taken ≡ log.fifo.taken ++ take cnt (slice_bytes b)
unfolding pop_buffer fifo_write
taken-after_push log b rest cnt = taken-unlocked_push_buffer (fifo_write log b cnt) rest

after_push-IsValid :
    (log : MemCachedLog) (b rest : ByteSlice) (cnt : ℕ)
    → IsValid log
    → IsValid (after_push log b cnt rest)
after_push-IsValid log b rest cnt v =
    pop_buffer-IsValid (unlocked_push_buffer (fifo_write log b cnt) rest)
      (unlocked_push_buffer-IsValid (fifo_write log b cnt) rest (fifo_write-IsValid log b cnt v))

abbrev pub not_opened : Reply
not_opened = record { cnt = 0; err = some fifo_not_opened }

not_opened_round :
    (log : MemCachedLog) (b : ByteSlice) (bs : List ByteSlice)
    → IsValid log
    → contents log.buffer ≡ b ∷ bs
    → flush_round log not_opened ≡ go_on (after_push log b 0 b)
unfolding after_round after_write
not_opened_round log b bs v e = flush_round_at log b bs not_opened v e

-- The slices after `n` moves of the first one to the end.
abbrev pub rotate : ℕ → List (List ℕ) → List (List ℕ)
rotate zero xs = xs
rotate (suc n) [] = []
rotate (suc n) (x ∷ xs) = rotate n (xs ++ (x ∷ []))

map-some-append :
    (xs : List (List ℕ)) (x : List ℕ)
    → map (λ y. some y) (xs ++ (x ∷ [])) ≡ map (λ y. some y) xs ++ (some x ∷ [])
map-some-append [] x = refl
map-some-append (y ∷ xs) x = ap (λ l. some y ∷ l) (map-some-append xs x)

size_of_contents :
    (log : MemCachedLog) (bs : List ByteSlice)
    → IsValid log
    → contents log.buffer ≡ bs
    → log.buffer.size ≡ length bs
size_of_contents log bs v e = sym (length-contents log.buffer v.queue) ∙ ap length e

length-map-some : (bs : List (List ℕ)) → length (map (λ y. some y) bs) ≡ length bs
length-map-some [] = refl
length-map-some (b ∷ bs) = ap suc (length-map-some bs)

flush_nil :
    (log : MemCachedLog) → is_empty log.buffer ≡ false → flush_buffer_to_fifo [] log ≡ running log
unfolding flush_buffer_to_fifo
flush_nil log e = rw e

-- As long as the fifo answers that it is not open, a flush with waiting slices goes on, holding
-- the mutex: after any number `n` of such answers it still runs, nothing has been taken, and the
-- slices have moved round `n` times. There are fewer than 1024 of them, and none is nil.
pub flush_spins :
    (n : ℕ) (log : MemCachedLog) (bs : List (List ℕ))
    → IsValid log
    → contents log.buffer ≡ map (λ y. some y) bs
    → 0 < length bs
    → length bs < 1024
    → (log' : MemCachedLog) × (flush_buffer_to_fifo (replicate n not_opened) log ≡ running log')
      × (contents log'.buffer ≡ map (λ y. some y) (rotate n bs))
      × (log'.fifo.taken ≡ log.fifo.taken)
flush_spins n log [] v e p h = absurd (omega arith)
flush_spins zero log (x ∷ xs) v e p h =
    (log, flush_nil log (is_empty_of_cons log (some x) (map (λ y. some y) xs) v e), e, refl)
flush_spins (suc n) log (x ∷ xs) v e p h =
    let rest : List ByteSlice = map (λ y. some y) xs in
    let log1 = after_push log (some x) 0 (some x) in
    let (log2, eq, c, t) =
      flush_spins n log1 (xs ++ (x ∷ [])) (after_push-IsValid log (some x) (some x) 0 v)
        (contents-after_push log (some x) rest 0 x v e
            (omega (arith, size_of_contents log (some x ∷ rest) v e, length-map-some xs))
          ∙ sym (map-some-append xs x))
        (omega (arith, length-append xs (x ∷ []))) (omega (arith, length-append xs (x ∷ []))) in
    (
      log2,
      flush_cons log log1 not_opened (replicate n not_opened)
            (is_empty_of_cons log (some x) rest v e) (not_opened_round log (some x) rest v e)
          ∙ eq,
      c,
      t ∙ taken-after_push log (some x) (some x) 0 ∙ append-nil log.fifo.taken,
    )

-- A reply with an error of the file below.
abbrev pub partial : ℕ → ℕ → Reply
partial cnt x = record { cnt = cnt; err = some (other x) }

partial_round :
    (log : MemCachedLog) (b : List ℕ) (bs : List ByteSlice) (cnt x : ℕ)
    → IsValid log
    → contents log.buffer ≡ some b ∷ bs
    → cnt ≢ length b
    → flush_round log (partial cnt x) ≡ go_on (after_push log (some b) cnt (some (drop cnt b)))
unfolding after_round after_write
partial_round log b bs cnt x v e ne = elim (Bool-cases (cnt == length b)) [
  | inl all ↦ absurd (ne (==→eq cnt (length b) all))
  | inr part ↦ flush_round_at log (some b) bs (partial cnt x) v e ∙ rw part
]

-- If the fifo takes only the first `cnt` bytes of the oldest slice, gives an error, and then takes
-- all that it is given, the rest of that slice reaches it behind all slices written later. Fewer than
-- 1024 slices wait.
flush_partial_reorders :
    (log : MemCachedLog) (b : List ℕ) (bs : List ByteSlice) (cnt x : ℕ) (rs : List Reply)
    → IsValid log
    → contents log.buffer ≡ some b ∷ bs
    → log.buffer.size < 1024
    → cnt ≢ length b
    → (log' : MemCachedLog) × (flush_buffer_to_fifo
          (partial cnt x ∷ (map accept (bs ++ (some (drop cnt b) ∷ [])) ++ rs))
          log
        ≡ done log')
      × (log'.fifo.taken
          ≡ log.fifo.taken ++ take cnt b ++ bytes_of (bs ++ (some (drop cnt b) ∷ [])))
      × (contents log'.buffer ≡ [])
flush_partial_reorders log b bs cnt x rs v e room ne =
    let log1 = after_push log (some b) cnt (some (drop cnt b)) in
    let queue = bs ++ (some (drop cnt b) ∷ []) in
    let (log2, eq, f) =
      flush_accepts queue rs log1 (after_push-IsValid log (some b) (some (drop cnt b)) cnt v)
        (contents-after_push log (some b) bs cnt (drop cnt b) v e room) in
    (
      log2,
      flush_cons log log1 (partial cnt x) (map accept queue ++ rs)
            (is_empty_of_cons log (some b) bs v e) (partial_round log b bs cnt x v e ne)
          ∙ eq,
      f.sent
          ∙ ap (λ l. l ++ bytes_of queue) (taken-after_push log (some b) (some (drop cnt b)) cnt),
      f.drained,
    )

-- At 1024 waiting slices, a flush that meets a fifo that is not open goes on with the oldest slice
-- behind the others and the second oldest lost; the fifo has taken nothing.
flush_full_drops :
    (log : MemCachedLog) (b : List ℕ) (c : ByteSlice) (bs : List ByteSlice) (rs : List Reply)
    → IsValid log
    → contents log.buffer ≡ some b ∷ (c ∷ bs)
    → log.buffer.size ≡ 1024
    → (log' : MemCachedLog) × (flush_buffer_to_fifo (not_opened ∷ rs) log
        ≡ flush_buffer_to_fifo rs log')
      × (contents log'.buffer ≡ bs ++ (some b ∷ []))
      × (log'.fifo.taken ≡ log.fifo.taken)
unfolding fifo_write
flush_full_drops log b c bs rs v e full =
    let log0 = fifo_write log (some b) 0 in
    let v0 : IsValid log0 = fifo_write-IsValid log (some b) 0 v in
    let pushed : contents (unlocked_push_buffer log0 (some b)).buffer ≡ c ∷ (bs ++ (some b ∷ [])) =
      contents-unlocked_push_buffer_full log0 b v0 full
      ∙ ap (λ l. (list_pop l).1 ++ (some b ∷ [])) e in
    (
      after_push log (some b) 0 (some b),
      flush_cons log (after_push log (some b) 0 (some b)) not_opened rs
          (is_empty_of_cons log (some b) (c ∷ bs) v e) (not_opened_round log (some b) (c ∷ bs) v e),
      contents-pop_buffer (unlocked_push_buffer log0 (some b)) c (bs ++ (some b ∷ []))
          (unlocked_push_buffer-IsValid log0 (some b) v0) pushed,
      taken-after_push log (some b) (some b) 0 ∙ append-nil log.fifo.taken,
    )

closed_round :
    (log : MemCachedLog) (b : ByteSlice) (bs : List ByteSlice) (r : Reply)
    → IsValid log
    → contents log.buffer ≡ b ∷ bs
    → r.err ≡ some fifo_closed
    → flush_round log r ≡ stuck
unfolding after_round after_write
closed_round log b bs r v e c = flush_round_at log b bs r v e ∙ rw c

-- An open log whose fifo answers that it is closed waits for the mutex that it holds: in `Write` if
-- no slice is waiting, and in the flush if one is.
closed_fifo_deadlocks :
    (log : MemCachedLog) (c : ByteSlice) (r : Reply) (rs : List Reply)
    → IsValid log
    → log.closed ≡ false
    → r.err ≡ some fifo_closed
    → (contents log.buffer ≡ [] → write log c r ≡ deadlock)
      × ((b : ByteSlice) (bs : List ByteSlice)
          → contents log.buffer ≡ b ∷ bs
          → flush_buffer_to_fifo (r ∷ rs) log ≡ deadlock)
unfolding write lock_free_write_fifo after_write flush_buffer_to_fifo
closed_fifo_deadlocks log c r rs v alive closed = (
  λ e. simp (alive, is_empty_of_nil log v e, closed),
  λ b bs e. rw (is_empty_of_cons log b bs v e, closed_round log b bs r v e closed),
)
