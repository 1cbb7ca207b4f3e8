-- ===== src/Queue/Contents.antt =====
-- The contents of a `BytesQueue` (utils/collections/queue/bytes.go) through `shrink`, `ensureCapacity`
-- and a step of the head.
use native.Mathlib.Decide.{dec_lt}
use systemd_runtime.Common.{
  ℕ, ◌+◌, ◌≤◌, ◌<◌, ◌≡◌, refl, sym, ap, ◌∙◌, max, [], ◌∷◌, none, arith, length, take, drop, get_or,
  leb, ltb, ltb→ge, ◌==◌, ==→eq, Bool-cases, inl, inr,
}
use systemd_runtime.Queue.{
  BytesQueue, unchecked_realloc, expand, ensure_capacity, shrink, init_cap, shrink_trigger,
  expand_size, shrink_size,
}
use systemd_runtime.Queue.Inv.{IsValid, realloc_shape, advance}
use systemd_runtime.Queue.Cells.{
  contents, cells, cells_of_le, cells-realloc, cells-advance, slice_first,
}

pub contents_pos : (q : BytesQueue) → 0 < q.size → contents q ≡ cells q
unfolding contents
contents_pos q p = elim (Bool-cases (q.size == 0)) [
  | inl e ↦ absurd (omega (arith, ==→eq q.size 0 e))
  | inr e ↦ rw e
]

pub contents_zero : (q : BytesQueue) → q.size ≡ 0 → contents q ≡ []
unfolding contents
contents_zero q e = rw e

contents-realloc :
    (q : BytesQueue) (n : ℕ)
    → IsValid q
    → 0 < q.size
    → q.size ≤ n
    → contents (unchecked_realloc q n) ≡ contents q
contents-realloc q n v p h =
    contents_pos (unchecked_realloc q n) (omega (arith, realloc_shape q n v p h))
    ∙ cells-realloc q n v p h
    ∙ sym (contents_pos q p)

-- `shrink` cannot be seen.
pub contents-shrink : (q : BytesQueue) → IsValid q → 0 < q.size → contents (shrink q) ≡ contents q
unfolding shrink
contents-shrink q v p = elim (Bool-cases (leb (length q.buffer) init_cap)) [
  | inl small ↦ rw small refl
  | inr large ↦ elim (Bool-cases (ltb (shrink_trigger (length q.buffer)) q.size)) [
    | inl full ↦ rw (large, full)
    | inr bare ↦
        rw (large, bare)
          (contents-realloc q (max init_cap (shrink_size (length q.buffer))) v p
            (omega (arith, ltb→ge (shrink_trigger (length q.buffer)) q.size bare)))
  ]
]

pub contents-ensure_capacity :
    (q : BytesQueue) (n : ℕ)
    → IsValid q
    → 0 < q.size
    → q.size ≤ n
    → contents (ensure_capacity q n) ≡ contents q
unfolding ensure_capacity expand
contents-ensure_capacity q n v p h = elim (Bool-cases (ltb cap n)) [
  | inl less ↦
      rw less (contents-realloc q (max n (max (cap + 5) (expand_size cap))) v p (omega arith))
  | inr more ↦ rw more
]
  where
    cap : ℕ
    cap = length q.buffer

one_place : (q : BytesQueue) → IsValid q → q.size ≡ 1 → q.head ≡ q.tail
one_place q v e = elim (dec_lt q.tail q.head) [
  | yes less ↦ absurd (omega (arith, v.wrapped (omega arith) less, v.head_in))
  | no le ↦ omega (arith, v.straight (omega arith) (omega arith))
]

-- A queue of one element holds the cell at its head.
cells_one : (q : BytesQueue) → IsValid q → q.size ≡ 1 → cells q ≡ get_or q.buffer q.head none ∷ []
cells_one q v e =
    cells_of_le buffer head tail (omega (arith, one_place q v e))
    ∙ slice_first buffer head (tail + 1) (omega (arith, one_place q v e)) v.head_in
    ∙ ap (λ l. get_or buffer head none ∷ l)
        (ap (λ k. take k (drop (head + 1) buffer)) {y = 0} (omega (arith, one_place q v e)))
  where
    open q use {buffer, head, tail}

-- The oldest slice is the cell at the head, and the others are what the queue holds without it.
pub contents-advance :
    (q : BytesQueue)
    → IsValid q
    → 0 < q.size
    → contents q ≡ get_or q.buffer q.head none ∷ contents (advance q)
contents-advance q v p = elim (dec_lt 1 q.size) [
  | yes more ↦
      contents_pos q p
      ∙ cells-advance q v more
      ∙ ap (λ l. get_or q.buffer q.head none ∷ l) (sym (contents_pos (advance q) (omega arith)))
  | no one ↦
      contents_pos q p
      ∙ cells_one q v (omega arith)
      ∙ ap (λ l. get_or q.buffer q.head none ∷ l) (sym (contents_zero (advance q) (omega arith)))
]
