-- ===== src/Memcache/Overwritten.antt =====
-- What the copy of process/io.go leaves in the log of tasklog/memcache.go while no one reads the fifo.
use mathlib.Core.List.{append_assoc, append-nil}
use systemd_runtime.Common.{
  ℕ, zero, suc, ◌+◌, ◌≤◌, ◌<◌, ◌≡◌, refl, ap, sym, ◌∙◌, some, List, [], ◌∷◌, ◌++◌, arith, length,
  drop, map, false, length-append,
}
use systemd_runtime.Queue.{ByteSlice}
use systemd_runtime.Queue.Cells.{contents}
use systemd_runtime.Queue.Refine.{length-contents}
use systemd_runtime.Memcache.{MemCachedLog, unlocked_push_buffer, Reply, done, flush_buffer_to_fifo}
use systemd_runtime.Memcache.Inv.{IsValid, unlocked_push_buffer-IsValid}
use systemd_runtime.Memcache.Stream.{
  waiting, contents-unlocked_push_buffer, waiting-unlocked_push_buffer,
}
use systemd_runtime.Memcache.Flush.{accept, flush_accepts}
use systemd_runtime.Memcache.Shared.{Store, Memory, after_call, stream, map-append, drop-length}
use systemd_runtime.Memcache.Copying.{
  places, overlay, read_into, copy_buffer, idle_read, AllLength, times, after_idle, overlay_lem,
  copy_step,
}

-- What rounds over chunks of `n` bytes leave.
record Copied (at n k : ℕ) (m m' : Memory) : Type 0 where
  seen : m'.seen ≡ m.seen
  waits : waiting m'.log ≡ waiting m.log ++ times k (places at n)
  valid : IsValid m'.log
  enabled : m'.log.closed ≡ false
  room : m'.log.buffer.size ≤ m.log.buffer.size + k

size-unlocked_push_buffer :
    (log : MemCachedLog) (b : List ℕ)
    → IsValid log
    → log.buffer.size < 1024
    → (unlocked_push_buffer log (some b)).buffer.size ≡ log.buffer.size + 1
size-unlocked_push_buffer log b v h =
    let next = unlocked_push_buffer log (some b) in
    omega (
      arith,
      length-contents log.buffer v.queue,
      length-contents next.buffer (unlocked_push_buffer-IsValid log (some b) v).queue,
      ap (λ l. length l) (contents-unlocked_push_buffer log b v h),
      length-append (contents log.buffer) (some b ∷ []),
    )

closed-unlocked_push_buffer :
    (log : MemCachedLog) (b : ByteSlice) → (unlocked_push_buffer log b).closed ≡ log.closed
unfolding unlocked_push_buffer
closed-unlocked_push_buffer log b = refl

after_idle-Copied :
    (at n : ℕ) (c : List ℕ) (m : Memory)
    → IsValid m.log
    → m.log.closed ≡ false
    → m.log.buffer.size < 1024
    → length c ≡ n
    → Copied at n 1 m (after_idle at c m)
unfolding read_into
after_idle-Copied at n c m v alive h e = record {
  seen = refl;
  waits =
      waiting-unlocked_push_buffer m.log (some (places at (length c))) v h
      ∙ ap (λ k. waiting m.log ++ places at k) e
      ∙ ap (λ l. waiting m.log ++ l) (sym (append-nil (places at n)));
  valid = unlocked_push_buffer-IsValid m.log (some (places at (length c))) v;
  enabled = closed-unlocked_push_buffer m.log (some (places at (length c))) ∙ alive;
  room = omega (arith, size-unlocked_push_buffer m.log (places at (length c)) v h);
}

Copied-trans :
    {at n k : ℕ} {m o q : Memory} → Copied at n 1 m o → Copied at n k o q → Copied at n (suc k) m q
Copied-trans {at} {n} {k} {m} a b = record {
  seen = b.seen ∙ a.seen;
  waits =
      b.waits ∙ ap (λ l. l ++ times k (places at n)) a.waits ∙ rw (append_assoc, append-nil) refl;
  valid = b.valid;
  enabled = b.enabled;
  room = omega (arith, a.room, b.room);
}

copies :
    (at n : ℕ) (cs : List (List ℕ)) (rest : List (List ℕ × Reply)) (m : Memory)
    → IsValid m.log
    → m.log.closed ≡ false
    → m.log.buffer.size + length cs ≤ 1024
    → AllLength (suc n) cs
    → (m' : Memory) × (copy_buffer at (map idle_read cs ++ rest) m ≡ copy_buffer at rest m')
      × Copied at (suc n) (length cs) m m'
copies at n [] rest m v alive h l = (
  m,
  refl,
  record {
    seen = refl;
    waits = sym (append-nil (waiting m.log));
    valid = v;
    enabled = alive;
    room = omega arith;
  },
)
copies at n ([] ∷ cs) rest m v alive h (l, ls) = absurd (omega (arith, l))
copies at n ((x ∷ xs) ∷ cs) rest m v alive h (l, ls) =
    let one = after_idle-Copied at (suc n) (x ∷ xs) m v alive (omega (arith, h)) l in
    let (m', eq, more) =
      copies at n cs rest (after_idle at (x ∷ xs) m) one.valid one.enabled
        (omega (arith, h, one.room)) ls in
    (m', copy_step at x xs (map idle_read cs ++ rest) m alive ∙ eq, Copied-trans one more)

map-times : (f : Store) (k : ℕ) (xs ys : List ℕ) → map f xs ≡ ys → map f (times k xs) ≡ times k ys
map-times f zero xs ys e = refl
map-times f (suc k) xs ys e =
    map-append f xs (times k xs)
    ∙ ap (λ l. l ++ map f (times k xs)) e
    ∙ ap (λ l. ys ++ l) (map-times f k xs ys e)

-- The rounds over `cs`, and the one over `last`.
copies_all :
    (at n : ℕ) (cs : List (List ℕ)) (last : List ℕ) (m : Memory)
    → IsValid m.log
    → m.log.closed ≡ false
    → m.log.buffer.size + length cs < 1024
    → AllLength (suc n) cs
    → length last ≡ suc n
    → (o : Memory) × (copy_buffer at (map idle_read cs ++ (idle_read last ∷ [])) m
        ≡ done (after_idle at last o))
      × Copied at (suc n) (length cs) m o
unfolding copy_buffer
copies_all at n cs [] m v alive h ls l = absurd (omega (arith, l))
copies_all at n cs (x ∷ xs) m v alive h ls l =
    let (o, eq, more) = copies at n cs (idle_read (x ∷ xs) ∷ []) m v alive (omega (arith, h)) ls in
    (o, eq ∙ copy_step at x xs [] o more.enabled, more)

times_last : (k : ℕ) (xs : List ℕ) → times k xs ++ (xs ++ []) ≡ times (suc k) xs
times_last zero xs = refl
times_last (suc k) xs =
    append_assoc xs (times k xs) (xs ++ []) ∙ ap (λ l. xs ++ l) (times_last k xs)

-- The bytes behind the last round.
stream_overwritten :
    (at n k : ℕ) (last : List ℕ) (m o : Memory)
    → length last ≡ n
    → Copied at n k m o
    → Copied at n 1 o (after_idle at last o)
    → stream (after_idle at last o)
      ≡ (m.seen ++ map (after_idle at last o).store (waiting m.log)) ++ times (suc k) last
unfolding read_into
stream_overwritten at n k last m o e a b =
    let f = overlay at last o.store in
    let ps = places at n in
    let read : map f ps ≡ last =
      ap (λ i. map f (places at i)) (sym e) ∙ overlay_lem at last o.store in
    ap (λ l. l ++ map f (waiting (after_idle at last o).log)) a.seen
    ∙ ap (λ l. m.seen ++ map f l)
        (b.waits
          ∙ ap (λ l. l ++ times 1 ps) a.waits
          ∙ append_assoc (waiting m.log) (times k ps) (ps ++ [])
          ∙ ap (λ l. waiting m.log ++ l) (times_last k ps))
    ∙ ap (λ l. m.seen ++ l)
        (map-append f (waiting m.log) (times (suc k) ps)
          ∙ ap (λ l. map f (waiting m.log) ++ l) (map-times f (suc k) ps last read))
    ∙ sym (append_assoc m.seen (map f (waiting m.log)) (times (suc k) last))

-- The bytes that a flush sends if the fifo takes all that waits.
flushed :
    (m : Memory)
    → IsValid m.log
    → (log' : MemCachedLog) × (flush_buffer_to_fifo (map accept (contents m.log.buffer)) m.log
        ≡ done log')
      × ((after_call m log').seen ≡ stream m)
unfolding after_call
flushed m v =
    let bs = contents m.log.buffer in
    let (log', eq, f) = flush_accepts bs [] m.log v refl in
    (
      log',
      ap (λ l. flush_buffer_to_fifo l m.log) (sym (append-nil (map accept bs))) ∙ eq,
      ap (λ l. m.seen ++ map m.store (drop (length m.log.fifo.taken) l)) f.sent
          ∙ ap (λ l. m.seen ++ map m.store l) (drop-length m.log.fifo.taken (waiting m.log)),
    )

-- The copy of a task's output loses it while no reader has opened the fifo: of chunks that are not
-- empty and have the length of the last one, with room for all of them in an open log, only the last
-- one is left. It waits as often as there were chunks, behind what waited before, and a flush to a
-- fifo that takes everything sends just that.
pub chunks_overwritten :
    (at n : ℕ) (cs : List (List ℕ)) (last : List ℕ) (m : Memory)
    → IsValid m.log
    → m.log.closed ≡ false
    → m.log.buffer.size + length cs < 1024
    → AllLength (suc n) cs
    → length last ≡ suc n
    → (m' : Memory) × (copy_buffer at (map idle_read cs ++ (idle_read last ∷ [])) m ≡ done m')
      × (stream m' ≡ (m.seen ++ map m'.store (waiting m.log)) ++ times (suc (length cs)) last)
      × (log' : MemCachedLog) × (flush_buffer_to_fifo (map accept (contents m'.log.buffer)) m'.log
          ≡ done log')
      × ((after_call m' log').seen ≡ stream m')
chunks_overwritten at n cs last m v alive h ls l =
    let (o, eq, more) = copies_all at n cs last m v alive h ls l in
    let one =
      after_idle-Copied at (suc n) last o more.valid more.enabled (omega (arith, h, more.room)) l in
    let m' = after_idle at last o in
    let (log', sends, out) = flushed m' one.valid in
    (m', eq, stream_overwritten at (suc n) (length cs) last m o l more one, log', sends, out)
