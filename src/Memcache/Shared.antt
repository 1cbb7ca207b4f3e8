-- ===== src/Memcache/Shared.antt =====
-- The slices of tasklog/memcache.go are those of its caller: `unlockedPushBuffer` keeps the slice, not a
-- copy. Here the elements of a slice are places of a memory that the caller may write to later, and
-- the fifo sees the bytes that are there when it takes them. The caller is `io.CopyBuffer` of
-- process/io.go, which reads again and again into one buffer.
use mathlib.Core.List.{append_assoc, append-nil}
use systemd_runtime.Common.{
  ℕ, zero, suc, ◌<◌, ◌≡◌, ◌≢◌, refl, ap, ◌∙◌, none, some, Option, List, [], ◌∷◌, ◌++◌, length, take,
  drop, map, false, Bool-cases, inl, inr, ==→eq, ◌⊎◌,
}
use systemd_runtime.Queue.{ByteSlice, is_empty}
use systemd_runtime.Queue.Contents.{contents_zero}
use systemd_runtime.Memcache.{
  MemCachedLog, slice_bytes, Reply, WriteError, fifo_closed, Outcome, done, deadlock, running,
  write,
}
use systemd_runtime.Memcache.Inv.{IsValid}
use systemd_runtime.Memcache.Stream.{waiting, bytes_of, IsHonest, Returns}
use systemd_runtime.Memcache.Write.{Splits, accepted, write-Splits}

-- The byte at each place.
abbrev pub Store : Type 0
Store = ℕ → ℕ

-- `seen` is what came out of the fifo.
pub record Memory : Type 0 where
  pub store : Store
  pub log : MemCachedLog
  pub seen : List ℕ

-- The log that a call of it leaves: the fifo has seen the bytes of the places that it took.
unfoldable pub after_call : Memory → MemCachedLog → Memory
after_call m log = record m {
  log = log;
  seen = m.seen ++ map m.store (drop (length m.log.fifo.taken) log.fifo.taken);
}

abbrev pub written :
    Memory
    → Outcome (MemCachedLog × ℕ × Option WriteError)
    → Outcome (Memory × ℕ × Option WriteError)
written m (done (log, n, err)) = done (after_call m log, n, err)
written m deadlock = deadlock
written m (running log) = running log

-- `Write` of the log.
unfoldable pub write_in : Memory → ByteSlice → Reply → Outcome (Memory × ℕ × Option WriteError)
write_in m b r = written m (write m.log b r)

-- The bytes that came out of the fifo, and those that would come if the waiting slices were sent now.
abbrev pub stream : Memory → List ℕ
stream m = m.seen ++ map m.store (waiting m.log)

pub map-append : (f : ℕ → ℕ) (xs ys : List ℕ) → map f (xs ++ ys) ≡ map f xs ++ map f ys
map-append f [] ys = refl
map-append f (x ∷ xs) ys = ap (λ l. f x ∷ l) (map-append f xs ys)

pub drop-length : (xs ys : List ℕ) → drop (length xs) (xs ++ ys) ≡ ys
drop-length [] ys = refl
drop-length (x ∷ xs) ys = drop-length xs ys

split_map : (f : ℕ → ℕ) (k : ℕ) (xs : List ℕ) → map f (take k xs) ++ map f (drop k xs) ≡ map f xs
split_map f zero xs = refl
split_map f (suc k) [] = refl
split_map f (suc k) (x ∷ xs) = ap (λ l. f x ∷ l) (split_map f k xs)

-- What `Write` of `b` does if the fifo takes `k` bytes: those come out as they are now, the others wait
-- where they are, behind what waited, so that later writes to the memory change them.
abbrev pub Appends : Memory → ByteSlice → (k : ℕ) → (Memory × ℕ × Option WriteError) → Type 0
Appends m b k (m', n, err) =
    (m'.seen ≡ m.seen ++ map m.store (take k (slice_bytes b)))
    × (waiting m'.log ≡ waiting m.log ++ drop k (slice_bytes b))
    × (stream m' ≡ stream m ++ map m.store (slice_bytes b))
    × (m'.store ≡ m.store)
    × (err ≡ none)

-- Either nothing waits, or the fifo is not called.
accepted_cases : (log : MemCachedLog) (r : Reply) → (waiting log ≡ []) ⊎ (accepted log r ≡ 0)
accepted_cases log r = elim (Bool-cases (is_empty log.buffer)) [
  | inl e ↦ inl (ap bytes_of (contents_zero log.buffer (==→eq log.buffer.size 0 e)))
  | inr e ↦ inr (rw e refl)
]

-- The stream behind a `Write`, in parts: `s` came out, `w` waited, `k` places of `b` are taken.
stream_grows :
    (f : Store) (s w b : List ℕ) (k : ℕ)
    → (w ≡ []) ⊎ (k ≡ 0)
    → (s ++ map f (take k b)) ++ map f (w ++ drop k b) ≡ (s ++ map f w) ++ map f b
stream_grows f s w b k (inl e) = rw (e, append-nil, append_assoc, split_map) refl
stream_grows f s w b k (inr e) = rw (e, append-nil, map-append, append_assoc) refl

written-Appends :
    (m : Memory) (b : ByteSlice) (k : ℕ) (o : Outcome (MemCachedLog × ℕ × Option WriteError))
    → (waiting m.log ≡ []) ⊎ (k ≡ 0)
    → Returns (Splits m.log b k) o
    → Returns (Appends m b k) (written m o)
unfolding after_call
written-Appends m b k (done (log, n, err)) parts (took, waits, fine) =
    let out : (after_call m log).seen ≡ m.seen ++ map m.store (take k (slice_bytes b)) =
      ap (λ l. m.seen ++ map m.store (drop (length m.log.fifo.taken) l)) took
      ∙ ap (λ l. m.seen ++ map m.store l) (drop-length m.log.fifo.taken (take k (slice_bytes b))) in
    (
      out,
      waits,
      ap (λ l. l ++ map m.store (waiting log)) out
          ∙ ap (λ l. (m.seen ++ map m.store (take k (slice_bytes b))) ++ map m.store l) waits
          ∙ stream_grows m.store m.seen (waiting m.log) (slice_bytes b) k parts,
      refl,
      fine,
    )
written-Appends m b k deadlock parts h = elim h [ ]
written-Appends m b k (running log) parts h = elim h [ ]

-- `Write` on an open log with fewer than 1024 waiting slices returns without an error, whatever an
-- honest fifo answers, unless the buffer is empty and the fifo answers that it is closed. The bytes of
-- the slice that the fifo takes, the first ones up to its count if nothing waited, come out behind
-- what came out before; the rest of the slice waits behind what waited. So the bytes are at the end of
-- the stream when the call returns, but the rest waits by reference: it is the caller's memory that
-- waits, not the bytes that were there.
pub write_in-Appends :
    (m : Memory) (b : ByteSlice) (r : Reply)
    → IsValid m.log
    → m.log.closed ≡ false
    → m.log.buffer.size < 1024
    → IsHonest b r
    → (m.log.buffer.size ≡ 0 → r.err ≢ some fifo_closed)
    → Returns (Appends m b (accepted m.log r)) (write_in m b r)
unfolding write_in
write_in-Appends m b r v alive room h ne =
    written-Appends m b (accepted m.log r) (write m.log b r) (accepted_cases m.log r)
      (write-Splits m.log b r v alive room h ne)
