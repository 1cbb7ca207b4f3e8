-- ===== src/Memcache/Copying.antt =====
-- The copy of a task's output into its log, process/io.go: `io.CopyBuffer` with a buffer of the pool.
use mathlib.Core.List.{append-nil}
use systemd_runtime.Common.{
  ℕ, zero, suc, ◌+◌, ◌<◌, ◌≡◌, refl, ap, ◌∙◌, none, some, Option, List, [], ◌∷◌, ◌++◌, arith,
  length, ◌==◌, drop-all, map, true, false, is_some, not, ◌||◌, if◌then◌else◌,
}
use systemd_runtime.Memcache.{
  unlocked_push_buffer, Reply, WriteError, fifo_not_opened, Outcome, done, deadlock, running,
}
use systemd_runtime.Memcache.Stream.{taken-unlocked_push_buffer}
use systemd_runtime.Memcache.Write.{write_idle}
use systemd_runtime.Memcache.Shared.{Store, Memory, after_call, written, write_in}

-- The places of `n` bytes from one place on, and a memory with bytes put there.
unfoldable pub places : (at n : ℕ) → List ℕ
places at zero = []
places at (suc n) = at ∷ places (at + 1) n

unfoldable pub overlay : (at : ℕ) → List ℕ → Store → Store
overlay at [] f i = f i
overlay at (x ∷ xs) f i = if i == at then x else overlay (at + 1) xs f i

-- A read of the task's output into the buffer, which begins at a place.
unfoldable pub read_into : (at : ℕ) → List ℕ → Memory → Memory
unfolding overlay
read_into at c m = record m { store = overlay at c m.store }

-- What `io.CopyBuffer` does behind the write of a chunk: it ends with an error or a short write.
abbrev pub copied :
    ℕ → Outcome (Memory × ℕ × Option WriteError) → (Memory → Outcome Memory) → Outcome Memory
copied len (done (m, n, err)) next = if is_some err || not (n == len) then done m else next m
copied len deadlock next = deadlock
copied len (running log) next = running log

-- `io.CopyBuffer`: it reads a chunk into its buffer and writes it, again and again. A list has what each
-- read gives, with the reply of the fifo to the write. The memory that it leaves is the result.
unfoldable pub copy_buffer : (at : ℕ) → List (List ℕ × Reply) → Memory → Outcome Memory
unfolding read_into places write_in
copy_buffer at [] m = done m
copy_buffer at (([], r) ∷ cs) m = copy_buffer at cs m
copy_buffer at ((x ∷ xs, r) ∷ cs) m =
    copied (length (x ∷ xs))
      (write_in (read_into at (x ∷ xs) m) (some (places at (length (x ∷ xs)))) r)
      (λ m'. copy_buffer at cs m')

-- While no reader has opened the fifo.
abbrev pub idle_read : List ℕ → List ℕ × Reply
idle_read c = (c, record { cnt = 0; err = some fifo_not_opened })

abbrev pub AllLength : ℕ → List (List ℕ) → Type 0
AllLength n [] = Unit {0}
AllLength n (c ∷ cs) = (length c ≡ n) × AllLength n cs

-- A list again and again.
abbrev pub times : ℕ → List ℕ → List ℕ
times zero xs = []
times (suc k) xs = xs ++ times k xs

length-places : (at n : ℕ) → length (places at n) ≡ n
unfolding places
length-places at zero = refl
length-places at (suc n) = ap suc (length-places (at + 1) n)

overlay_later :
    (at x : ℕ) (xs : List ℕ) (f : Store) (k n : ℕ)
    → at < k
    → map (overlay at (x ∷ xs) f) (places k n) ≡ map (overlay (at + 1) xs f) (places k n)
unfolding places overlay
overlay_later at x xs f k zero h = refl
overlay_later at x xs f k (suc n) h =
    let far : (k == at) ≡ false = ground arith in
    rw far
      (ap (λ l. overlay (at + 1) xs f k ∷ l) (overlay_later at x xs f (k + 1) n (omega (arith, h))))

-- The buffer has what was read last.
pub overlay_lem :
    (at : ℕ) (c : List ℕ) (f : Store) → map (overlay at c f) (places at (length c)) ≡ c
unfolding places overlay
overlay_lem at [] f = refl
overlay_lem at (x ∷ xs) f =
    let here : (at == at) ≡ true = ground arith in
    rw here (
      ap (λ l. x ∷ l)
        (overlay_later at x xs f (at + 1) (length xs) (omega arith) ∙ overlay_lem (at + 1) xs f))

-- What one round leaves.
abbrev pub after_idle : (at : ℕ) → List ℕ → Memory → Memory
after_idle at c m = record (read_into at c m) {
  log = unlocked_push_buffer m.log (some (places at (length c)));
}

after_call_idle :
    (at : ℕ) (c : List ℕ) (m : Memory)
    → after_call (read_into at c m) (unlocked_push_buffer m.log (some (places at (length c))))
      ≡ after_idle at c m
unfolding after_call read_into
after_call_idle at c m =
    rw
      (
        taken-unlocked_push_buffer m.log (some (places at (length c))),
        drop-all (length m.log.fifo.taken) m.log.fifo.taken (omega arith),
        append-nil,
      )
      refl

write_idle_in :
    (at : ℕ) (c : List ℕ) (m : Memory)
    → m.log.closed ≡ false
    → write_in
        (read_into at c m)
        (some (places at (length c)))
        (record { cnt = 0; err = some fifo_not_opened })
      ≡ done (after_idle at c m, length c, none)
unfolding write_in read_into
write_idle_in at c m alive =
    ap (written (read_into at c m)) (write_idle m.log (some (places at (length c))) alive)
    ∙ ap (λ q. done (q, length (places at (length c)), none)) (after_call_idle at c m)
    ∙ ap (λ k. done (after_idle at c m, k, none)) (length-places at (length c))

pub copy_step :
    (at x : ℕ) (xs : List ℕ) (cs : List (List ℕ × Reply)) (m : Memory)
    → m.log.closed ≡ false
    → copy_buffer at (idle_read (x ∷ xs) ∷ cs) m ≡ copy_buffer at cs (after_idle at (x ∷ xs) m)
unfolding copy_buffer
copy_step at x xs cs m alive =
    let whole : (length (x ∷ xs) == length (x ∷ xs)) ≡ true = ground arith in
    ap (λ o. copied (length (x ∷ xs)) o (λ m'. copy_buffer at cs m'))
      (write_idle_in at (x ∷ xs) m alive)
    ∙ rw whole refl
