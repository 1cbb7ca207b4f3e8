-- ===== src/Queue/Inv.antt =====
-- The representation invariant of `BytesQueue`, and that every operation keeps it.
use Prim.Native.Nat.{min}
use native.Mathlib.Decide.{dec_lt}
use native.Mathlib.Nat.{mod-eq_of_lt}
use systemd_runtime.Common.{
  ltb, ltb→ge, ◌==◌, ℕ, ◌+◌, ◌-◌, ◌%◌, ◌≤◌, ◌<◌, ◌≡◌, List, ◌++◌, none, some, arith, refl, max,
  length, length-set, length-append, length-take, length-drop, length-replicate, take, drop,
  copy_at, slice, leb, leb→gt, Bool-cases, inl, inr, ◌⊎◌,
}
use systemd_runtime.Queue.{
  expand_size, shrink_size, BytesQueue, ByteSlice, unchecked_realloc, expand, ensure_capacity,
  shrink, push_next, push_tail, pop_head, new_bytes_queue, set_head, next_tail, next_head, alloc,
  init_cap,
}

-- `tail` is the index of the last element; an empty queue has both indices at one place.
pub record IsValid (q : BytesQueue) : Type 0 where
  pub head_in : q.head < length q.buffer
  pub tail_in : q.tail < length q.buffer
  pub empty : q.size ≡ 0 → q.head ≡ q.tail
  pub straight : 0 < q.size → q.head ≤ q.tail → q.size + q.head ≡ q.tail + 1
  pub wrapped : 0 < q.size → q.tail < q.head → q.size + q.head ≡ length q.buffer + q.tail + 1

pub length-copy_at {ℓ} :
    {A : Type ℓ} (dst : List A) (lo hi : ℕ) (src : List A)
    → lo ≤ hi
    → hi ≤ length dst
    → length (copy_at dst lo hi src) ≡ length dst
length-copy_at dst lo hi src h k =
    let n = min (hi - lo) (length src) in
    omega (
      arith,
      length-append (take lo dst) (take n src ++ drop (lo + n) dst),
      length-append (take n src) (drop (lo + n) dst),
      length-take lo dst,
      length-take n src,
      length-drop (lo + n) dst,
    )

pub new-IsValid : IsValid new_bytes_queue
new-IsValid = ground arith

-- What `unchecked_realloc` leaves: the same size, a new capacity, the indices at the front.
pub realloc_shape :
    (q : BytesQueue) (n : ℕ)
    → IsValid q
    → 0 < q.size
    → q.size ≤ n
    → let q' = unchecked_realloc q n in
      (length q'.buffer ≡ n) × (q'.size ≡ q.size) × (q'.head ≡ 0) × (q'.tail ≡ q.size - 1)
unfolding unchecked_realloc
realloc_shape q n v p h = elim (Bool-cases (leb q.head q.tail)) [
  | inl s ↦ rw s (
    omega (
      arith,
      length-copy_at (alloc n) 0 q.size (slice q.buffer q.head (q.tail + 1)) (omega arith),
      length-replicate {A = ByteSlice} n none,
    ),
    refl,
    refl,
    refl,
  )
  | inr w ↦ rw w (
    omega (
      arith,
      length-copy_at (alloc n) 0 idx (slice q.buffer q.head (length q.buffer)),
      length-copy_at front idx q.size (slice q.buffer 0 (q.tail + 1)),
      length-replicate {A = ByteSlice} n none,
      v.wrapped,
      leb→gt q.head q.tail w,
    ),
    refl,
    refl,
    refl,
  )
]
  where
    idx : ℕ
    idx = length q.buffer - q.head

    front : List ByteSlice
    front = copy_at (alloc n) 0 idx (slice q.buffer q.head (length q.buffer))

realloc-IsValid :
    (q : BytesQueue) (n : ℕ) → IsValid q → 0 < q.size → q.size ≤ n → IsValid (unchecked_realloc q n)
realloc-IsValid q n v p h = omega (arith, realloc_shape q n v p h)

-- One step round the ring.
pub next_index :
    (i c : ℕ) → i < c → (((i + 1) % c ≡ i + 1) × (i + 1 < c)) ⊎ (((i + 1) % c ≡ 0) × (i + 1 ≡ c))
next_index i c h = elim (dec_lt (i + 1) c) [
  | yes p ↦ inl (mod-eq_of_lt p, p)
  | no p ↦ inr (grind arith, omega arith)
]

-- After `ensureCapacity` there is room for one more element.
pub ensure_capacity_room :
    (q : BytesQueue)
    → IsValid q
    → 0 < q.size
    → let q' = ensure_capacity q (q.size + 1) in
      IsValid q' × (q'.size ≡ q.size) × (q.size + 1 ≤ length q'.buffer)
unfolding ensure_capacity expand
ensure_capacity_room q v p = elim (Bool-cases (ltb cap (q.size + 1))) [
  | inl less ↦ rw less (
    realloc-IsValid q n v p (omega arith),
    (realloc_shape q n v p (omega arith)).1,
    omega (arith, realloc_shape q n v p),
  )
  | inr more ↦ rw more (v, refl, ltb→ge cap (q.size + 1) more)
]
  where
    cap : ℕ
    cap = length q.buffer

    n : ℕ
    n = max (q.size + 1) (max (cap + 5) (expand_size cap))

push_next-IsValid :
    (q : BytesQueue) (b : ByteSlice)
    → IsValid q
    → 0 < q.size
    → q.size + 1 ≤ length q.buffer
    → IsValid (push_next q b)
unfolding push_next
push_next-IsValid q b v p h =
    grind (arith, next_index q.tail (length q.buffer), length-set q.buffer (next_tail q) b)

-- `PushTail` keeps the invariant.
pub push_tail-IsValid : (q : BytesQueue) (b : ByteSlice) → IsValid q → IsValid (push_tail q b)
unfolding push_tail
push_tail-IsValid q none v = v
push_tail-IsValid q (some b) v = elim (Bool-cases (q.size == 0)) [
  | inl e ↦ rw e (ground (arith, length-set q.buffer q.tail (some b)))
  | inr e ↦ rw e (
      let room = ensure_capacity_room q v (ground arith) in
      push_next-IsValid (ensure_capacity q (q.size + 1)) (some b) room.0 (ground arith)
        (ground arith))
]

shrink-IsValid : (q : BytesQueue) → IsValid q → 0 < q.size → IsValid (shrink q)
unfolding shrink
shrink-IsValid q v p =
    ground (arith, realloc-IsValid q (max init_cap (shrink_size (length q.buffer))) v p)

-- The queue that `PopHead` hands to `shrink`.
abbrev pub advance : BytesQueue → BytesQueue
advance q = record q { head = next_head q; size = q.size - 1 }

pub advance-IsValid : (q : BytesQueue) → IsValid q → 1 < q.size → IsValid (advance q)
advance-IsValid q v p = grind (arith, next_index q.head (length q.buffer))

-- `PopHead` keeps the invariant.
pub pop_head-IsValid : (q : BytesQueue) → IsValid q → IsValid (pop_head q).1
unfolding pop_head
pop_head-IsValid q v = ground (arith, advance-IsValid q v, shrink-IsValid (advance q))

-- A write through the pointer of `PeekHead` keeps the invariant.
set_head-IsValid : (q : BytesQueue) (b : ByteSlice) → IsValid q → IsValid (set_head q b)
unfolding set_head
set_head-IsValid q b v = ground (arith, length-set q.buffer q.head b)

-- A nil slice is not pushed.
pub push_tail-nil : (q : BytesQueue) → push_tail q none ≡ q
unfolding push_tail
push_tail-nil q = refl
