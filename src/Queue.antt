-- ===== src/Queue.antt =====
-- utils/collections/queue/bytes.go: the growing and shrinking ring of byte slices (`BytesQueue`)
-- that buffers task logs. A method that mutates `*q` returns the new queue.
pub mod Inv
pub mod Cells
pub mod Contents
pub mod Refine
pub mod Bounds
mod Examples
use systemd_runtime.Common.{
  ℕ, ◌+◌, ◌-◌, ◌*◌, ◌/◌, ◌%◌, max, Option, none, some, List, Bool, leb, ltb, ◌==◌, if◌then◌else◌,
  length, get_or, set, slice, replicate, copy_at,
}

-- A Go `[]byte`: `none` is the nil slice. The queue moves slices and never looks at their elements.
abbrev pub ByteSlice : Type 0
ByteSlice = Option (List ℕ)

pub record BytesQueue : Type 0 where
  pub buffer : List ByteSlice
  pub size : ℕ
  pub head : ℕ
  pub tail : ℕ

abbrev pub init_cap : ℕ
init_cap = 5

-- The `float32` products `float32(n) * factor`, cut to an integer. The constants 1.5, 0.5 and 0.7
-- are written as fractions: below 2^20 the rounded product has the same integer part.
abbrev pub expand_size : ℕ → ℕ
expand_size n = n * 3 / 2

abbrev pub shrink_trigger : ℕ → ℕ
shrink_trigger n = n / 2

abbrev pub shrink_size : ℕ → ℕ
shrink_size n = n * 7 / 10

abbrev pub alloc : ℕ → List ByteSlice
alloc size = replicate size none

abbrev pub new_bytes_queue : BytesQueue
new_bytes_queue = record { buffer = alloc init_cap; size = 0; head = 0; tail = 0 }

abbrev pub is_empty : BytesQueue → Bool
is_empty q = q.size == 0

abbrev pub next_head : BytesQueue → ℕ
next_head q = (q.head + 1) % length q.buffer

abbrev pub next_tail : BytesQueue → ℕ
next_tail q = (q.tail + 1) % length q.buffer

-- The slice expressions in range are what `IsValid` of Queue/Inv gives at every call.
pub unchecked_realloc : BytesQueue → ℕ → BytesQueue
unchecked_realloc q new_cap =
    if leb q.head q.tail
    then record q {
      buffer = copy_at (alloc new_cap) 0 q.size (slice q.buffer q.head (q.tail + 1));
      head = 0;
      tail = q.size - 1;
    }
    else (let idx = length q.buffer - q.head in
        record q {
          buffer =
              copy_at (copy_at (alloc new_cap) 0 idx (slice q.buffer q.head (length q.buffer))) idx
                q.size (slice q.buffer 0 (q.tail + 1));
          head = 0;
          tail = q.size - 1;
        })

pub expand : BytesQueue → ℕ → BytesQueue
expand q min_cap =
    let size = length q.buffer in
    unchecked_realloc q (max min_cap (max (size + 5) (expand_size size)))

pub ensure_capacity : BytesQueue → ℕ → BytesQueue
ensure_capacity q new_cap = if ltb (length q.buffer) new_cap then expand q new_cap else q

pub shrink : BytesQueue → BytesQueue
shrink q =
    let cap = length q.buffer in
    if leb cap init_cap
    then q
    else if ltb (shrink_trigger cap) q.size
    then q
    else unchecked_realloc q (max init_cap (shrink_size cap))

-- The part of `PushTail` below the test for an empty queue.
pub push_next : BytesQueue → ByteSlice → BytesQueue
push_next q bytes = record q {
  buffer = set q.buffer (next_tail q) bytes;
  tail = next_tail q;
  size = q.size + 1;
}

unfoldable pub push_tail : BytesQueue → ByteSlice → BytesQueue
push_tail q none = q
push_tail q (some b) =
    if q.size == 0
    then record q { buffer = set q.buffer q.tail (some b); size = q.size + 1 }
    else push_next (ensure_capacity q (q.size + 1)) (some b)

-- `PeekHead` gives a pointer into the buffer: a read through it, and below a write through it.
unfoldable pub peek_head : BytesQueue → Option ByteSlice
peek_head q = if is_empty q then none else some (get_or q.buffer q.head none)

unfoldable pub set_head : BytesQueue → ByteSlice → BytesQueue
set_head q bytes = record q { buffer = set q.buffer q.head bytes }

unfoldable pub pop_head : BytesQueue → ByteSlice × BytesQueue
pop_head q =
    if is_empty q
    then (none, q)
    else (let r = get_or q.buffer q.head none in
        if q.size == 1
        then (r, record q { size = 0 })
        else (r, shrink (record q { head = next_head q; size = q.size - 1 })))
