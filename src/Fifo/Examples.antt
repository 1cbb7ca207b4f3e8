-- ===== src/Fifo/Examples.antt =====
-- Concrete holders of tasklog/fifo.go.
use systemd_runtime.Common.{
  ℕ, ◌+◌, ◌<◌, ◌≡◌, ◌≢◌, refl, true, false, Option, some, [], ◌∷◌, List, arith, is_some,
}
use systemd_runtime.Memcache
use systemd_runtime.Memcache.{Reply, other, fifo_closed}
use systemd_runtime.Memcache.Stream.{IsHonest}
use systemd_runtime.Memcache.Shared.{Memory}
use systemd_runtime.Fifo.{
  FifoHolder, new_fifo, signal, write, close, sync_open_fifo, sent_next, unlocked_close,
}
use systemd_runtime.Fifo.Resources.{
  Reach, start, next, signals, opens, receives, IsBalanced, Reach-IsBalanced,
}
use systemd_runtime.Fifo.Replies.{IsFile, write-IsHonest}
use systemd_runtime.Fifo.Deadlock.{Logger, Move, Moves, failed_write_deadlocks}

-- A holder that was asked for its signal, and whose fifo was opened and announced.
abbrev opened : FifoHolder
opened = sent_next (sync_open_fifo (signal new_fifo).0 false)

asked_free : (signal new_fifo).0.sending ≡ []
unfolding signal new_fifo
asked_free = refl

asked_opening : 0 < (signal new_fifo).0.opening
unfolding signal new_fifo
asked_opening = omega arith

announcing : (sync_open_fifo (signal new_fifo).0 false).sending ≢ []
unfolding signal new_fifo sync_open_fifo
announcing = ground arith

new_free : new_fifo.sending ≡ []
unfolding new_fifo
new_free = refl

opened-Reach : Reach opened
opened-Reach =
    next
      (next (next start (signals new_fifo new_free))
        (opens (signal new_fifo).0 false asked_free asked_opening))
      (receives (sync_open_fifo (signal new_fifo).0 false) announcing)

Reach-IsBalanced_example : IsBalanced opened
Reach-IsBalanced_example = Reach-IsBalanced opened-Reach

opened_free : opened.sending ≡ []
unfolding sent_next signal new_fifo sync_open_fifo
opened_free = refl

opened_fifo : opened.fifo ≡ true
unfolding sent_next signal new_fifo sync_open_fifo
opened_fifo = refl

opened_enabled : opened.closed ≡ false
unfolding sent_next signal new_fifo sync_open_fifo
opened_enabled = refl

opened_asked : opened.signal_chs ≡ 0 ∷ []
unfolding sent_next signal new_fifo sync_open_fifo
opened_asked = refl

one_closing : 0 < (close opened).closing
unfolding sent_next signal new_fifo sync_open_fifo close unlocked_close
one_closing = omega arith

abbrev bytes : Option (List ℕ)
bytes = some (104 ∷ 105 ∷ [])

abbrev half : Reply
half = record { cnt = 1; err = some (other 32) }

half-IsFile : IsFile bytes half
half-IsFile = record {
  honest = record { bound = omega arith; full = λ e. cc; idle = λ e. cc };
  not_closed = λ e. cc;
  not_idle = λ e. cc;
}

write-IsHonest_example :
    IsHonest bytes (write opened half).1
    × ((write opened half).1.err ≡ some fifo_closed → opened.closed ≡ true)
    × (is_some (write opened half).1.err ≡ true → (write opened half).0.fifo ≡ false)
write-IsHonest_example =
    write-IsHonest opened bytes half (Reach-IsBalanced opened-Reach) half-IsFile

new_enabled : Memcache.new_mem_cached_log.closed ≡ false
unfolding Memcache.new_mem_cached_log
new_enabled = refl

new_room : Memcache.new_mem_cached_log.buffer.size < 1024
unfolding Memcache.new_mem_cached_log
new_room = omega arith

-- The caller's slice is at the places 0 on.
abbrev memory : Memory
memory = record { store = λ i. 65 + i; log = Memcache.new_mem_cached_log; seen = [] }

failed_write_deadlocks_example :
    (s : Logger) × Moves (record { holder = opened; flushing = true }) s
    × ((t : Logger) → Move s t → ⊥)
failed_write_deadlocks_example =
    failed_write_deadlocks opened 1 32 0 [] (Reach-IsBalanced opened-Reach) opened_enabled
      opened_fifo opened_free opened_asked
