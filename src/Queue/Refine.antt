-- ===== src/Queue/Refine.antt =====
-- A valid `BytesQueue` behaves as the list of the slices that it holds, oldest first: growing,
-- shrinking and going round the end of the buffer cannot be seen through its methods.
use systemd_runtime.Common.{
  ◌-◌, length-append, ℕ, zero, suc, ◌+◌, ◌<◌, ◌≡◌, refl, sym, ap, ◌∙◌, List, [], ◌∷◌, ◌++◌, none,
  some, arith, length, ◌==◌, ==→eq, Bool-cases, inl, inr, Option, set, get_or,
}
use systemd_runtime.Queue.{
  BytesQueue, ByteSlice, push_tail, pop_head, peek_head, push_next, ensure_capacity,
  new_bytes_queue,
}
use systemd_runtime.Queue.Inv.{
  IsValid, ensure_capacity_room, advance, advance-IsValid, push_tail-IsValid, pop_head-IsValid,
  new-IsValid,
}
use systemd_runtime.Queue.Cells.{contents, cells-push_next, size-push_next, cells_single}
use systemd_runtime.Queue.Contents.{
  contents_pos, contents_zero, contents-advance, contents-shrink, contents-ensure_capacity,
}

-- The queue as a list: what `PopHead` gives and leaves, and what `PeekHead` shows.
abbrev pub list_pop : List ByteSlice → ByteSlice × List ByteSlice
list_pop [] = (none, [])
list_pop (x ∷ xs) = (x, xs)

abbrev pub list_head : List ByteSlice → Option ByteSlice
list_head [] = none
list_head (x ∷ xs) = some x

-- `PushTail` of a slice that is not nil puts it behind all others.
pub contents-push_tail :
    (q : BytesQueue) (b : List ℕ)
    → IsValid q
    → contents (push_tail q (some b)) ≡ contents q ++ (some b ∷ [])
unfolding push_tail
contents-push_tail q b v = elim (Bool-cases (q.size == 0)) [
  | inl e ↦
      rw (e, contents_zero q (==→eq q.size 0 e))
        (contents_pos (record q { buffer = set q.buffer q.tail (some b); size = q.size + 1 })
            (omega arith)
          ∙ cells_single q.buffer q.head q.tail (some b) (v.empty (==→eq q.size 0 e)) v.tail_in)
  | inr e ↦ rw e (full_push (ground arith))
]
  where
    grown : BytesQueue
    grown = ensure_capacity q (q.size + 1)

    full_push : 0 < q.size → contents (push_next grown (some b)) ≡ contents q ++ (some b ∷ [])
    full_push p =
        let room = ensure_capacity_room q v p in
        contents_pos (push_next grown (some b)) (omega (arith, size-push_next grown (some b)))
        ∙ cells-push_next grown (some b) room.0 (omega (arith, room.1))
            (omega (arith, room.1, room.2))
        ∙ ap (λ l. l ++ (some b ∷ []))
            (sym (contents_pos grown (omega (arith, room.1)))
              ∙ contents-ensure_capacity q (q.size + 1) v p (omega arith))

-- `PopHead` gives the oldest slice and leaves the others in order; on an empty queue it gives nil.
pub contents-pop_head :
    (q : BytesQueue)
    → IsValid q
    → let (r, q') = pop_head q in (r, contents q') ≡ list_pop (contents q)
unfolding pop_head
contents-pop_head q v = elim (Bool-cases (q.size == 0)) [
  | inl e ↦ rw (e, contents_zero q (==→eq q.size 0 e))
  | inr e ↦ rw e (elim (Bool-cases (q.size == 1)) [
    | inl one ↦
        rw (contents-advance q v (ground arith), one)
          (ap (λ l. (get_or q.buffer q.head none, l))
            (contents_zero (record q { size = 0 }) refl
              ∙ sym (contents_zero (advance q) (omega (arith, ==→eq q.size 1 one)))))
    | inr more ↦
        rw (contents-advance q v (ground arith), more)
          (ap (λ l. (get_or q.buffer q.head none, l))
            (contents-shrink (advance q) (advance-IsValid q v (ground arith)) (ground arith)))
  ])
]

-- `PeekHead` shows the oldest slice.
pub peek_head-contents : (q : BytesQueue) → IsValid q → peek_head q ≡ list_head (contents q)
unfolding peek_head
peek_head-contents q v = elim (Bool-cases (q.size == 0)) [
  | inl e ↦ rw (e, contents_zero q (==→eq q.size 0 e))
  | inr e ↦ rw (e, contents-advance q v (ground arith))
]

length-contents_at : (n : ℕ) (q : BytesQueue) → IsValid q → q.size ≡ n → length (contents q) ≡ n
length-contents_at zero q v e = rw (contents_zero q e)
length-contents_at (suc zero) q v e =
    rw (contents-advance q v (omega arith), contents_zero (advance q) (omega arith))
length-contents_at (suc (suc n)) q v e = rw (contents-advance q v (omega arith)) (
    ap suc
      (length-contents_at (suc n) (advance q) (advance-IsValid q v (omega arith)) (omega arith)))

-- `Size` is the number of slices held.
pub length-contents : (q : BytesQueue) → IsValid q → length (contents q) ≡ q.size
length-contents q v = length-contents_at q.size q v refl

-- What a client of the queue can do, and what it sees of each call.
pub data Op : Type 0 where
  push : ByteSlice → Op
  pop peek : Op

unfoldable pub run : BytesQueue → List Op → List (Option ByteSlice)
run q [] = []
run q (push b ∷ ops) = none ∷ run (push_tail q b) ops
run q (pop ∷ ops) = let (r, q') = pop_head q in some r ∷ run q' ops
run q (peek ∷ ops) = peek_head q ∷ run q ops

-- The same over a list; a nil slice is not pushed.
abbrev pub list_push : List ByteSlice → ByteSlice → List ByteSlice
list_push xs none = xs
list_push xs (some b) = xs ++ (some b ∷ [])

unfoldable pub list_run : List ByteSlice → List Op → List (Option ByteSlice)
list_run xs [] = []
list_run xs (push b ∷ ops) = none ∷ list_run (list_push xs b) ops
list_run xs (pop ∷ ops) = let (r, ys) = list_pop xs in some r ∷ list_run ys ops
list_run xs (peek ∷ ops) = list_head xs ∷ list_run xs ops

contents-push_tail_any :
    (q : BytesQueue) (b : ByteSlice)
    → IsValid q
    → contents (push_tail q b) ≡ list_push (contents q) b
unfolding push_tail
contents-push_tail_any q none v = refl
contents-push_tail_any q (some b) v = contents-push_tail q b v

run-list_run : (ops : List Op) (q : BytesQueue) → IsValid q → run q ops ≡ list_run (contents q) ops
unfolding run list_run
run-list_run [] q v = refl
run-list_run (push b ∷ ops) q v =
    rw (run-list_run ops (push_tail q b) (push_tail-IsValid q b v), contents-push_tail_any q b v)
run-list_run (pop ∷ ops) q v =
    rw (run-list_run ops (pop_head q).1 (pop_head-IsValid q v), ← contents-pop_head q v)
run-list_run (peek ∷ ops) q v = rw (run-list_run ops q v, peek_head-contents q v)

-- No sequence of `PushTail`, `PopHead` and `PeekHead` on a new queue tells it from a list.
pub new-run : (ops : List Op) → run new_bytes_queue ops ≡ list_run [] ops
new-run ops =
    run-list_run ops new_bytes_queue new-IsValid
    ∙ ap (λ l. list_run l ops) (contents_zero new_bytes_queue refl)

length-list_pop : (xs : List ByteSlice) → length (list_pop xs).1 ≡ length xs - 1
length-list_pop [] = refl
length-list_pop (x ∷ xs) = omega arith

-- The sizes after `PushTail` and `PopHead`.
pub size-push_tail :
    (q : BytesQueue) (b : List ℕ) → IsValid q → (push_tail q (some b)).size ≡ q.size + 1
size-push_tail q b v = omega (
  arith,
  length-contents q v,
  length-contents (push_tail q (some b)) (push_tail-IsValid q (some b) v),
  ap length (contents-push_tail q b v),
  length-append (contents q) (some b ∷ []),
)

pub size-pop_head : (q : BytesQueue) → IsValid q → (pop_head q).1.size ≡ q.size - 1
size-pop_head q v = omega (
  arith,
  length-contents q v,
  length-contents (pop_head q).1 (pop_head-IsValid q v),
  ap (λ p. length (p.1)) (contents-pop_head q v),
  length-list_pop (contents q),
)
