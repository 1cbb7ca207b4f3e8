-- ===== src/Queue/Bounds.antt =====
-- How much memory the buffer of a `BytesQueue` takes.
use systemd_runtime.Common.{
  ℕ, ◌+◌, ◌≤◌, ◌<◌, ◌≡◌, none, some, arith, length, length-set, max, ltb, ltb→lt, leb, ltb→ge,
  leb→gt, Bool-cases, inl, inr, ◌==◌,
}
use systemd_runtime.Queue.{
  BytesQueue, ByteSlice, push_tail, push_next, pop_head, ensure_capacity, expand, shrink,
  expand_size, shrink_size, init_cap, next_tail, shrink_trigger,
}
use systemd_runtime.Queue.Inv.{IsValid, realloc_shape, advance, advance-IsValid}

length-push_next :
    (q : BytesQueue) (b : ByteSlice) → length (push_next q b).buffer ≡ length q.buffer
unfolding push_next
length-push_next q b = length-set q.buffer (next_tail q) b

ensure_capacity_bound :
    (q : BytesQueue) (limit : ℕ)
    → IsValid q
    → 0 < q.size
    → q.size < limit
    → length (ensure_capacity q (q.size + 1)).buffer
      ≤ max (length q.buffer) (max (limit + 4) (expand_size limit))
unfolding ensure_capacity expand
ensure_capacity_bound q limit v p h = elim (Bool-cases (ltb cap (q.size + 1))) [
  | inl less ↦ rw less (omega (arith, realloc_shape q n v p, ltb→lt cap (q.size + 1) less))
  | inr more ↦ rw more (omega arith)
]
  where
    cap : ℕ
    cap = length q.buffer

    n : ℕ
    n = max (q.size + 1) (max (cap + 5) (expand_size cap))

pub length-push_tail :
    (q : BytesQueue) (b : ByteSlice) (limit : ℕ)
    → IsValid q
    → q.size < limit
    → length (push_tail q b).buffer ≤ max (length q.buffer) (max (limit + 4) (expand_size limit))
unfolding push_tail
length-push_tail q none limit v h = omega arith
length-push_tail q (some b) limit v h = elim (Bool-cases (q.size == 0)) [
  | inl e ↦ rw e (omega (arith, length-set q.buffer q.tail (some b)))
  | inr e ↦ rw e (
      rw (length-push_next (ensure_capacity q (q.size + 1)) (some b))
        (ensure_capacity_bound q limit v (ground arith) h))
]

shrink_bound :
    (q : BytesQueue)
    → IsValid q
    → 0 < q.size
    → 5 ≤ length q.buffer
    → (5 ≤ length (shrink q).buffer) × (length (shrink q).buffer ≤ length q.buffer)
unfolding shrink
shrink_bound q v p h = elim (Bool-cases (leb cap init_cap)) [
  | inl small ↦ rw small (h, omega arith)
  | inr large ↦ elim (Bool-cases (ltb (shrink_trigger cap) q.size)) [
    | inl full ↦ rw (large, full) (h, omega arith)
    | inr bare ↦
        rw (large, bare)
          (omega (
            arith,
            realloc_shape q (max init_cap (shrink_size cap)) v p,
            ltb→ge (shrink_trigger cap) q.size bare,
            leb→gt cap init_cap large,
          ))
  ]
]
  where
    cap : ℕ
    cap = length q.buffer

pub length-pop_head :
    (q : BytesQueue)
    → IsValid q
    → 5 ≤ length q.buffer
    → let q' = (pop_head q).1 in (5 ≤ length q'.buffer) × (length q'.buffer ≤ length q.buffer)
unfolding pop_head
length-pop_head q v h = ground (arith, advance-IsValid q v, shrink_bound (advance q))

ensure_capacity_ge :
    (q : BytesQueue) (n : ℕ)
    → IsValid q
    → 0 < q.size
    → q.size ≤ n
    → length q.buffer ≤ length (ensure_capacity q n).buffer
unfolding ensure_capacity expand
ensure_capacity_ge q n v p h = elim (Bool-cases (ltb (length q.buffer) n)) [
  | inl less ↦ rw less (
      omega (
        arith,
        realloc_shape q (max n (max (length q.buffer + 5) (expand_size (length q.buffer)))) v p,
        ltb→lt (length q.buffer) n less,
      ))
  | inr more ↦ rw more (omega arith)
]

-- `PushTail` never shrinks the buffer.
pub length-push_tail_ge :
    (q : BytesQueue) (b : ByteSlice) → IsValid q → length q.buffer ≤ length (push_tail q b).buffer
unfolding push_tail
length-push_tail_ge q none v = omega arith
length-push_tail_ge q (some b) v = elim (Bool-cases (q.size == 0)) [
  | inl e ↦ rw e (omega (arith, length-set q.buffer q.tail (some b)))
  | inr e ↦ rw e (
      rw (length-push_next (ensure_capacity q (q.size + 1)) (some b))
        (ensure_capacity_ge q (q.size + 1) v (ground arith) (omega arith)))
]
