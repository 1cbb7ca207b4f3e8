-- ===== src/Queue/Cells.antt =====
-- The slices that a `BytesQueue` holds, oldest first, and what each helper of
-- utils/collections/queue/bytes.go does to them.
use native.Mathlib.Decide.{dec_lt}
use mathlib.Core.List.{append_assoc}
use systemd_runtime.Common.{
  ℕ, suc, ◌+◌, ◌-◌, ◌≤◌, ◌<◌, ◌≡◌, refl, ap, ◌∙◌, min, List, [], ◌∷◌, ◌++◌, none, arith, length,
  length-set, length-append, length-take, length-drop, length-replicate, take, drop, set, slice,
  copy_at, get_or, take-all, take-append, drop-get_or, drop-set, take-set, set-drop, leb, leb→gt,
  leb→le, ◌==◌, if◌then◌else◌, Bool-cases, inl, inr,
}
use systemd_runtime.Queue.{BytesQueue, ByteSlice, unchecked_realloc, push_next, alloc}
use systemd_runtime.Queue.Inv.{IsValid, length-copy_at, realloc_shape, next_index, advance}

-- The cells from index `h` to index `t`, going round at the end of the buffer.
abbrev pub cells_of : List ByteSlice → ℕ → ℕ → List ByteSlice
cells_of xs h t =
    if leb h t then slice xs h (t + 1) else slice xs h (length xs) ++ slice xs 0 (t + 1)

abbrev pub cells : BytesQueue → List ByteSlice
cells q = cells_of q.buffer q.head q.tail

unfoldable pub contents : BytesQueue → List ByteSlice
contents q = if q.size == 0 then [] else cells q

-- `copy` into a range that its source fills, seen from the front of the array.
take-copy_at {ℓ} :
    {A : Type ℓ} (dst : List A) (lo hi : ℕ) (src : List A)
    → hi ≡ lo + length src
    → lo ≤ length dst
    → take hi (copy_at dst lo hi src) ≡ take lo dst ++ src
take-copy_at dst lo hi src e h =
    rw (take-all (min (hi - lo) (length src)) src (omega arith), ← append_assoc)
      (take-append hi (take lo dst ++ src) _
        (omega (arith, length-append (take lo dst) src, length-take lo dst)))

-- A queue at the front of its buffer holds a prefix.
cells_at_front : (q : BytesQueue) (n : ℕ) → q.head ≡ 0 → q.tail + 1 ≡ n → cells q ≡ take n q.buffer
cells_at_front q n e t = elim (Bool-cases (leb q.head q.tail)) [
  | inl s ↦ rw (s, e, t) (ap (λ k. take k q.buffer) {x = n - 0} (omega arith))
  | inr w ↦ absurd (omega (arith, leb→gt q.head q.tail w))
]

-- What `unchecked_realloc` writes at the front of the new buffer.
take-realloc :
    (q : BytesQueue) (n : ℕ)
    → IsValid q
    → 0 < q.size
    → q.size ≤ n
    → take q.size (unchecked_realloc q n).buffer ≡ cells q
unfolding unchecked_realloc
take-realloc q n v p h = elim (Bool-cases (leb q.head q.tail)) [
  | inl s ↦ rw s (
      take-copy_at (alloc n) 0 q.size (slice q.buffer q.head (q.tail + 1))
        (omega (
          arith,
          leb→le q.head q.tail s,
          length-take (q.tail + 1 - q.head) (drop q.head q.buffer),
          length-drop q.head q.buffer,
        ))
        (omega arith))
  | inr w ↦ rw w (
      take-copy_at front idx q.size (slice q.buffer 0 (q.tail + 1))
        (omega (arith, leb→gt q.head q.tail w, v.wrapped p, length-take (q.tail + 1 - 0) q.buffer))
        (omega (
          arith,
          length-copy_at (alloc n) 0 idx (slice q.buffer q.head (length q.buffer)),
          length-replicate {A = ByteSlice} n none,
          leb→gt q.head q.tail w,
          v.wrapped p,
        ))
      ∙ ap (λ l. l ++ slice q.buffer 0 (q.tail + 1))
          (take-copy_at (alloc n) 0 idx (slice q.buffer q.head (length q.buffer))
            (omega (arith, length-take idx (drop q.head q.buffer), length-drop q.head q.buffer))
            (omega arith)))
]
  where
    idx : ℕ
    idx = length q.buffer - q.head

    front : List ByteSlice
    front = copy_at (alloc n) 0 idx (slice q.buffer q.head (length q.buffer))

-- Reallocation keeps the cells.
pub cells-realloc :
    (q : BytesQueue) (n : ℕ)
    → IsValid q
    → 0 < q.size
    → q.size ≤ n
    → cells (unchecked_realloc q n) ≡ cells q
cells-realloc q n v p h =
    let shape = realloc_shape q n v p h in
    cells_at_front (unchecked_realloc q n) q.size shape.2 (omega (arith, shape.3))
    ∙ take-realloc q n v p h

-- A write just past a subslice extends it.
slice-set_end :
    (xs : List ByteSlice) (lo hi : ℕ) (v : ByteSlice)
    → lo ≤ hi
    → hi < length xs
    → slice (set xs hi v) lo (hi + 1) ≡ slice xs lo hi ++ (v ∷ [])
slice-set_end xs lo hi v h k =
    ap (λ i. take (hi + 1 - lo) (drop lo (set xs i v))) {y = lo + (hi - lo)} (omega arith)
    ∙ rw (set-drop lo (hi - lo) xs v) (
        ap (λ i. take i (set (drop lo xs) (hi - lo) v)) {y = suc (hi - lo)} (omega arith)
        ∙ take-set (hi - lo) (drop lo xs) v (omega (arith, length-drop lo xs)))

-- A write outside a subslice, before it.
slice-set_before :
    (xs : List ByteSlice) (lo hi i : ℕ) (v : ByteSlice)
    → i < lo
    → slice (set xs i v) lo hi ≡ slice xs lo hi
slice-set_before xs lo hi i v h = ap (take (hi - lo)) (drop-set lo i xs v h)

-- The first cell of a subslice.
pub slice_first :
    (xs : List ByteSlice) (lo hi : ℕ)
    → lo < hi
    → lo < length xs
    → slice xs lo hi ≡ get_or xs lo none ∷ slice xs (lo + 1) hi
slice_first xs lo hi h k =
    ap (λ l. take (hi - lo) l) (drop-get_or lo xs none k)
    ∙ ap (λ i. take i (get_or xs lo none ∷ drop (lo + 1) xs)) {y = suc (hi - (lo + 1))}
        (omega arith)

pub cells_of_le : (xs : List ByteSlice) (h t : ℕ) → h ≤ t → cells_of xs h t ≡ slice xs h (t + 1)
cells_of_le xs h t le = elim (Bool-cases (leb h t)) [
  | inl s ↦ rw s
  | inr w ↦ absurd (omega (arith, leb→gt h t w))
]

cells_of_lt :
    (xs : List ByteSlice) (h t : ℕ)
    → t < h
    → cells_of xs h t ≡ slice xs h (length xs) ++ slice xs 0 (t + 1)
cells_of_lt xs h t lt = elim (Bool-cases (leb h t)) [
  | inl s ↦ absurd (omega (arith, leb→le h t s))
  | inr w ↦ rw w
]

-- The three places at which a write past the tail can fall.
module _ (xs : List ByteSlice) (h t : ℕ) (v : ByteSlice) where
  push_ahead :
      h ≤ t
      → t + 1 < length xs
      → cells_of (set xs (t + 1) v) h (t + 1) ≡ cells_of xs h t ++ (v ∷ [])
  push_ahead le lt =
      cells_of_le (set xs (t + 1) v) h (t + 1) (omega arith)
      ∙ rw (cells_of_le xs h t le) (slice-set_end xs h (t + 1) v (omega arith) lt)

  push_round :
      h ≤ t → 0 < h → t + 1 ≡ length xs → cells_of (set xs 0 v) h 0 ≡ cells_of xs h t ++ (v ∷ [])
  push_round le pos full =
      cells_of_lt (set xs 0 v) h 0 pos
      ∙ rw (cells_of_le xs h t le, slice-set_before xs h (length (set xs 0 v)) 0 v pos)
          (rw (length-set xs 0 v, full)
            (ap (λ l. slice xs h (length xs) ++ l) (take-set 0 xs v (omega arith))))

  push_behind :
      t + 1 < h
      → h < length xs
      → cells_of (set xs (t + 1) v) h (t + 1) ≡ cells_of xs h t ++ (v ∷ [])
  push_behind lt k =
      cells_of_lt (set xs (t + 1) v) h (t + 1) lt
      ∙ rw
          (
            cells_of_lt xs h t (omega arith),
            slice-set_before xs h (length (set xs (t + 1) v)) (t + 1) v lt,
          )
          (rw (length-set xs (t + 1) v, append_assoc)
            (ap (λ l. slice xs h (length xs) ++ l)
              (slice-set_end xs 0 (t + 1) v (omega arith) (omega arith))))

pub size-push_next : (q : BytesQueue) (b : ByteSlice) → (push_next q b).size ≡ q.size + 1
unfolding push_next
size-push_next q b = refl

-- The element goes behind the others, wherever the tail stands.
pub cells-push_next :
    (q : BytesQueue) (b : ByteSlice)
    → IsValid q
    → 0 < q.size
    → q.size + 1 ≤ length q.buffer
    → cells (push_next q b) ≡ cells q ++ (b ∷ [])
unfolding push_next
cells-push_next q b v p h = elim (next_index tail (length buffer) v.tail_in) [
  | inr (e, full) ↦
      rw e (push_round buffer head tail b (omega arith) (omega (arith, v.straight p)) full)
  | inl (e, lt) ↦ elim (dec_lt tail head) [
    | yes less ↦ rw e (push_behind buffer head tail b (omega (arith, v.wrapped p less)) v.head_in)
    | no more ↦ rw e (push_ahead buffer head tail b (omega arith) lt)
  ]
]
  where
    open q use {buffer, head, tail}

-- Moving the head on drops the first cell.
pub cells-advance :
    (q : BytesQueue)
    → IsValid q
    → 1 < q.size
    → cells q ≡ get_or q.buffer q.head none ∷ cells (advance q)
cells-advance q v p = elim (dec_lt tail head) [
  | no le ↦ elim (next_index head (length buffer) v.head_in) [
    | inl (e, lt) ↦
        rw (cells_of_le buffer head tail (omega arith), e)
          (rw (cells_of_le buffer (head + 1) tail (omega (arith, v.straight)))
            (slice_first buffer head (tail + 1) (omega arith) v.head_in))
    | inr (e, full) ↦ absurd (omega (arith, v.straight))
  ]
  | yes less ↦ elim (next_index head (length buffer) v.head_in) [
    | inl (e, lt) ↦
        rw (cells_of_lt buffer head tail less, e)
          (rw (cells_of_lt buffer (head + 1) tail (omega arith)) (
            ap (λ l. l ++ slice buffer 0 (tail + 1))
              (slice_first buffer head (length buffer) v.head_in v.head_in)))
    | inr (e, full) ↦
        rw (cells_of_lt buffer head tail less, e)
          (rw (cells_of_le buffer 0 tail (omega arith)) (
            ap (λ l. l ++ slice buffer 0 (tail + 1))
              (slice_first buffer head (length buffer) v.head_in v.head_in
                ∙ ap (λ l. get_or buffer head none ∷ l)
                    (ap (λ k. take k (drop (head + 1) buffer)) {y = 0} (omega arith)))))
  ]
]
  where
    open q use {buffer, head, tail}

-- The first element of an empty queue.
pub cells_single :
    (xs : List ByteSlice) (h t : ℕ) (x : ByteSlice)
    → h ≡ t
    → t < length xs
    → cells_of (set xs t x) h t ≡ x ∷ []
cells_single xs h t x e k =
    cells_of_le (set xs t x) h t (omega arith)
    ∙ ap (λ i. slice (set xs t x) i (t + 1)) e
    ∙ slice-set_end xs t t x (omega arith) k
    ∙ ap (λ i. take i (drop t xs) ++ (x ∷ [])) {y = 0} (omega arith)
