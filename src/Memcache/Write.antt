-- ===== src/Memcache/Write.antt =====
-- `memCachedLog.Write` of tasklog/memcache.go.
use mathlib.Core.List.{append-nil}
use systemd_runtime.Common.{
  ℕ, ◌<◌, ◌≡◌, ◌≢◌, refl, ap, ◌∙◌, none, some, Option, List, [], ◌∷◌, ◌++◌, Bool-cases, inl, inr,
  arith, length, ◌==◌, ==→eq, take, drop, drop-all, false, sym, zero, suc, if◌then◌else◌,
}
use systemd_runtime.Queue.{ByteSlice, is_empty}
use systemd_runtime.Queue.Cells.{contents}
use systemd_runtime.Queue.Refine.{list_pop}
use systemd_runtime.Memcache.{
  MemCachedLog, unlocked_push_buffer, fifo_write, slice_bytes, slice_len, slice_from, Reply,
  WriteError, fifo_not_opened, fifo_closed, other, done, write, lock_free_write_fifo, after_write,
}
use systemd_runtime.Memcache.Inv.{
  IsValid, AllLogs, after_write-IsValid, fifo_write-IsValid, unlocked_push_buffer-IsValid,
}
use systemd_runtime.Memcache.Stream.{
  waiting, IsHonest, Returns, contents-unlocked_push_buffer_full, taken-unlocked_push_buffer,
  waiting-unlocked_push_buffer,
}

-- Every call of `Write` keeps the invariant, whatever the fifo answers: no more than 1024 slices
-- wait in a buffer of no more than 1536 cells.
pub write-IsValid :
    (log : MemCachedLog) (b : ByteSlice) (r : Reply)
    → IsValid log
    → AllLogs IsValid (λ r. r.0) (write log b r)
unfolding write lock_free_write_fifo
write-IsValid log b r v = elim (Bool-cases log.closed) [
  | inl shut ↦ simp shut v
  | inr alive ↦ elim (Bool-cases (is_empty log.buffer)) [
    | inl e ↦
        simp (alive, e)
          (after_write-IsValid (fifo_write log b r.cnt) b r.cnt r.err
            (fifo_write-IsValid log b r.cnt v))
    | inr e ↦ simp (alive, e) (unlocked_push_buffer-IsValid log b v)
  ]
]

-- What a write that loses nothing returns: no error, and a log whose fifo has taken the first `k`
-- places of the slice and whose buffer has the others behind what waited.
abbrev pub Splits :
    MemCachedLog → ByteSlice → (k : ℕ) → (MemCachedLog × ℕ × Option WriteError) → Type 0
Splits log b k (log', n, err) =
    (log'.fifo.taken ≡ log.fifo.taken ++ take k (slice_bytes b))
    × (waiting log' ≡ waiting log ++ drop k (slice_bytes b))
    × (err ≡ none)

-- How much of the slice the fifo takes.
abbrev pub accepted : MemCachedLog → Reply → ℕ
accepted log r = if is_empty log.buffer then r.cnt else 0

taken-fifo_write :
    (log : MemCachedLog) (b : ByteSlice) (cnt : ℕ)
    → ((fifo_write log b cnt).fifo.taken ≡ log.fifo.taken ++ take cnt (slice_bytes b))
      × (waiting (fifo_write log b cnt) ≡ waiting log)
unfolding fifo_write
taken-fifo_write log b cnt = (refl, refl)

size-fifo_write :
    (log : MemCachedLog) (b : ByteSlice) (cnt : ℕ)
    → (fifo_write log b cnt).buffer.size ≡ log.buffer.size
unfolding fifo_write
size-fifo_write log b cnt = refl

drop_slice : (b : ByteSlice) (cnt : ℕ) → slice_bytes (slice_from b cnt) ≡ drop cnt (slice_bytes b)
drop_slice none zero = refl
drop_slice none (suc cnt) = refl
drop_slice (some b) cnt = refl

-- The fifo has taken the whole slice.
split_whole :
    (log : MemCachedLog) (b : ByteSlice) (cnt : ℕ) (n : ℕ)
    → cnt ≡ slice_len b
    → Splits log b cnt (fifo_write log b cnt, n, none)
split_whole log b cnt n h = (
  (taken-fifo_write log b cnt).0,
  rw ((taken-fifo_write log b cnt).1, drop-all cnt (slice_bytes b) (omega (arith, h)), append-nil)
      refl,
  refl,
)

-- The fifo has taken the front of `b`, and what is pushed is the rest.
split_rest :
    (log : MemCachedLog) (b c : ByteSlice) (cnt n : ℕ)
    → IsValid log
    → log.buffer.size < 1024
    → slice_bytes c ≡ drop cnt (slice_bytes b)
    → Splits log b cnt (unlocked_push_buffer (fifo_write log b cnt) c, n, none)
split_rest log b c cnt n v room h = (
  taken-unlocked_push_buffer (fifo_write log b cnt) c ∙ (taken-fifo_write log b cnt).0,
  waiting-unlocked_push_buffer (fifo_write log b cnt) c (fifo_write-IsValid log b cnt v)
        (omega (arith, room, size-fifo_write log b cnt))
      ∙ ap (λ l. l ++ slice_bytes c) ((taken-fifo_write log b cnt).1)
      ∙ ap (λ l. waiting log ++ l) h,
  refl,
)

-- What happens behind the call of the fifo, on an empty buffer.
after_write-Splits :
    (log : MemCachedLog) (b : ByteSlice) (cnt : ℕ) (err : Option WriteError)
    → IsValid log
    → log.buffer.size < 1024
    → IsHonest b (record { cnt = cnt; err = err })
    → err ≢ some fifo_closed
    → Returns (Splits log b cnt) (after_write (fifo_write log b cnt) b cnt err)
unfolding after_write
after_write-Splits log b cnt none v e h ne = split_whole log b cnt cnt (h.full refl)
after_write-Splits log b cnt (some fifo_not_opened) v e h ne =
    split_rest log b b cnt (slice_len b) v e
      (ap (λ k. drop k (slice_bytes b)) {x = 0} (sym (h.idle refl)))
after_write-Splits log b cnt (some fifo_closed) v e h ne = absurd (ne refl)
after_write-Splits log b cnt (some (other x)) v e h ne = elim (Bool-cases (cnt == slice_len b)) [
  | inl all ↦ rw all (split_whole log b cnt 0 (==→eq cnt (slice_len b) all))
  | inr part ↦
      rw part (split_rest log b (slice_from b cnt) cnt (slice_len b) v e (drop_slice b cnt))
]

-- `Write` on an open log with fewer than 1024 waiting slices, unless the buffer is empty and the fifo
-- answers that it is closed.
pub write-Splits :
    (log : MemCachedLog) (b : ByteSlice) (r : Reply)
    → IsValid log
    → log.closed ≡ false
    → log.buffer.size < 1024
    → IsHonest b r
    → (log.buffer.size ≡ 0 → r.err ≢ some fifo_closed)
    → Returns (Splits log b (accepted log r)) (write log b r)
unfolding write lock_free_write_fifo
write-Splits log b r v alive room h ne = elim (Bool-cases (is_empty log.buffer)) [
  | inl e ↦
      simp (alive, e)
        (after_write-Splits log b r.cnt r.err v room h (ne (==→eq log.buffer.size 0 e)))
  | inr e ↦
      simp (alive, e)
        (
          taken-unlocked_push_buffer log b ∙ sym (append-nil log.fifo.taken),
          waiting-unlocked_push_buffer log b v room,
          refl,
        )
]

-- `Write` on an open log over a fifo that is not open, with its buffer empty or not.
pub write_idle :
    (log : MemCachedLog) (b : ByteSlice)
    → log.closed ≡ false
    → write log b (record { cnt = 0; err = some fifo_not_opened })
      ≡ done (unlocked_push_buffer log b, slice_len b, none)
unfolding write lock_free_write_fifo after_write fifo_write
write_idle log b alive = elim (Bool-cases (is_empty log.buffer)) [
  | inl e ↦ rw (alive, e, append-nil) refl
  | inr e ↦ rw (alive, e) refl
]

-- On an open log at the limit of 1024 slices, `Write` of a slice that is not nil returns its length without an
-- error, drops the oldest waiting slice, and puts the new one behind the others.
write_full :
    (log : MemCachedLog) (b : List ℕ) (r : Reply)
    → IsValid log
    → log.closed ≡ false
    → log.buffer.size ≡ 1024
    → Returns
        (λ res.
          (contents res.0.buffer ≡ (list_pop (contents log.buffer)).1 ++ (some b ∷ []))
          × (res.0.fifo.taken ≡ log.fifo.taken)
          × (res.1 ≡ length b)
          × (res.2 ≡ none))
        (write log (some b) r)
unfolding write
write_full log b r v alive full =
    simp (alive, used)
      (
        contents-unlocked_push_buffer_full log b v full,
        taken-unlocked_push_buffer log (some b),
        refl,
        refl,
      )
  where
    used : is_empty log.buffer ≡ false
    used = ground arith
