-- ===== src/Memcache/Stream.antt =====
-- The stream of a task log: what the fifo has taken, and behind it what waits in memory.
use mathlib.Core.List.{append_assoc, append-nil}
use systemd_runtime.Common.{
  ℕ, ◌≤◌, ◌<◌, ◌≡◌, refl, ap, sym, ◌∙◌, none, some, List, [], ◌∷◌, ◌++◌, Bool-cases, inl, inr,
  arith, ◌==◌, ==→eq,
}
use systemd_runtime.Queue.{ByteSlice, pop_head}
use systemd_runtime.Queue.Inv.{push_tail-nil, pop_head-IsValid}
use systemd_runtime.Queue.Cells.{contents}
use systemd_runtime.Queue.Refine.{contents-push_tail, contents-pop_head, list_pop}
use systemd_runtime.Memcache.{
  MemCachedLog, mem_limit, unlocked_push_buffer, slice_bytes, slice_len, Outcome, done, deadlock,
  running, Reply, fifo_not_opened,
}
use systemd_runtime.Memcache.Inv.{IsValid}

abbrev pub bytes_of : List ByteSlice → List ℕ
bytes_of [] = []
bytes_of (b ∷ bs) = slice_bytes b ++ bytes_of bs

bytes_of-append : (xs ys : List ByteSlice) → bytes_of (xs ++ ys) ≡ bytes_of xs ++ bytes_of ys
bytes_of-append [] ys = refl
bytes_of-append (b ∷ bs) ys =
    ap (λ l. slice_bytes b ++ l) (bytes_of-append bs ys)
    ∙ sym (append_assoc (slice_bytes b) (bytes_of bs) (bytes_of ys))

abbrev pub waiting : MemCachedLog → List ℕ
waiting log = bytes_of (contents log.buffer)

-- What the documentation of `io.Writer` promises of a reply, and what the fifo holder answers while
-- no reader has opened the fifo.
pub record IsHonest (b : ByteSlice) (r : Reply) : Type 0 where
  pub bound : r.cnt ≤ slice_len b
  pub full : r.err ≡ none → r.cnt ≡ slice_len b
  pub idle : r.err ≡ some fifo_not_opened → r.cnt ≡ 0

-- The call returns, with a result of which `P` holds.
abbrev pub Returns : {A : Type 0} → (A → Type 0) → Outcome A → Type 0
Returns P (done a) = P a
Returns P deadlock = ⊥
Returns P (running log) = ⊥

pub contents-unlocked_push_buffer :
    (log : MemCachedLog) (b : List ℕ)
    → IsValid log
    → log.buffer.size < 1024
    → contents (unlocked_push_buffer log (some b)).buffer ≡ contents log.buffer ++ (some b ∷ [])
unfolding unlocked_push_buffer
contents-unlocked_push_buffer log b v h = elim (Bool-cases (log.buffer.size == mem_limit)) [
  | inl full ↦ absurd (omega (arith, ==→eq log.buffer.size 1024 full))
  | inr free ↦ rw free (contents-push_tail log.buffer b v.queue)
]

pub taken-unlocked_push_buffer :
    (log : MemCachedLog) (b : ByteSlice) → (unlocked_push_buffer log b).fifo.taken ≡ log.fifo.taken
unfolding unlocked_push_buffer
taken-unlocked_push_buffer log b = refl

unlocked_push_buffer-nil :
    (log : MemCachedLog) → log.buffer.size < 1024 → unlocked_push_buffer log none ≡ log
unfolding unlocked_push_buffer
unlocked_push_buffer-nil log h = elim (Bool-cases (log.buffer.size == mem_limit)) [
  | inl full ↦ absurd (omega (arith, ==→eq log.buffer.size 1024 full))
  | inr free ↦ rw (free, push_tail-nil)
]

-- Below the limit a push puts the slice behind the others.
pub waiting-unlocked_push_buffer :
    (log : MemCachedLog) (b : ByteSlice)
    → IsValid log
    → log.buffer.size < 1024
    → waiting (unlocked_push_buffer log b) ≡ waiting log ++ slice_bytes b
waiting-unlocked_push_buffer log none v h = rw (unlocked_push_buffer-nil log h, append-nil) refl
waiting-unlocked_push_buffer log (some b) v h =
    rw
      (
        contents-unlocked_push_buffer log b v h,
        bytes_of-append (contents log.buffer) (some b ∷ []),
        append-nil,
      )
      refl

-- At the limit a push drops the oldest slice.
pub contents-unlocked_push_buffer_full :
    (log : MemCachedLog) (b : List ℕ)
    → IsValid log
    → log.buffer.size ≡ 1024
    → contents (unlocked_push_buffer log (some b)).buffer
      ≡ (list_pop (contents log.buffer)).1 ++ (some b ∷ [])
unfolding unlocked_push_buffer
contents-unlocked_push_buffer_full log b v full = elim (Bool-cases (log.buffer.size == mem_limit)) [
  | inl e ↦ rw e (
      contents-push_tail (pop_head log.buffer).1 b (pop_head-IsValid log.buffer v.queue)
      ∙ ap (λ p. p.1 ++ (some b ∷ [])) (contents-pop_head log.buffer v.queue))
  | inr e ↦ absurd (ground arith)
]
