-- ===== src/Fifo/Deadlock.antt =====
-- The mutex of tasklog/fifo.go and that of tasklog/memcache.go: `syncOpenFifo` holds the first and
-- waits for `handleFifoSignal` to receive, which in its flush holds the second and waits for the first.
use systemd_runtime.Common.{
  ℕ, ◌<◌, ◌≡◌, ◌≢◌, refl, Bool, true, false, some, [], ◌∷◌, ◌++◌, List, arith,
}
use systemd_runtime.Memcache.{Reply, other}
use systemd_runtime.Fifo.{
  FifoHolder, write, unlocked_reset, close, sync_open_fifo, finish_reset, finish_close, sent_next,
}
use systemd_runtime.Fifo.Resources.{IsBalanced}

-- The holder, and whether `handleFifoSignal` is in its flush with a slice to write. Then it holds the
-- mutex of the log, and its next call is `Write` of the holder; else it receives from its channel.
pub record Logger : Type 0 where
  pub holder : FifoHolder
  pub flushing : Bool

-- What the goroutines of a log do next. Only `handleFifoSignal` receives from the channel; callers of
-- the log need its mutex. `more` says whether the flush has another slice.
pub data Move : Logger → Logger → Type 0 where
  receives :
      (h : FifoHolder)
      → h.sending ≢ []
      → (more : Bool)
      → Move
          (record { holder = h; flushing = false })
          (record { holder = sent_next h; flushing = more })
  signalled :
      (h : FifoHolder) (before after : List ℕ) (ch : ℕ)
      → h.senders ≡ before ++ (ch ∷ after)
      → (more : Bool)
      → Move
          (record { holder = h; flushing = false })
          (record { holder = record h { senders = before ++ after }; flushing = more })
  flushes :
      (h : FifoHolder) (r : Reply) (more : Bool)
      → h.sending ≡ []
      → Move
          (record { holder = h; flushing = true })
          (record { holder = (write h r).0; flushing = more })
  calls_write :
      (h : FifoHolder) (r : Reply)
      → h.sending ≡ []
      → Move
          (record { holder = h; flushing = false })
          (record { holder = (write h r).0; flushing = false })
  calls_close :
      (h : FifoHolder)
      → h.sending ≡ []
      → Move
          (record { holder = h; flushing = false })
          (record { holder = close h; flushing = false })
  opens :
      (h : FifoHolder) (flushing failed : Bool)
      → h.sending ≡ []
      → 0 < h.opening
      → Move
          (record { holder = h; flushing = flushing })
          (record { holder = sync_open_fifo h failed; flushing = flushing })
  reopens :
      (h : FifoHolder) (flushing failed : Bool)
      → h.sending ≡ []
      → 0 < h.resetting
      → Move
          (record { holder = h; flushing = flushing })
          (record { holder = finish_reset h failed; flushing = flushing })
  finishes :
      (h : FifoHolder) (flushing : Bool)
      → 0 < h.closing
      → Move
          (record { holder = h; flushing = flushing })
          (record { holder = finish_close h; flushing = flushing })

pub data Moves : Logger → Logger → Type 0 where
  rests : {s : Logger} → Moves s s
  moves : {s t u : Logger} → Move s t → Moves t u → Moves s u

-- A flush that waits for the mutex of an opener that waits for the flush.
pub record IsStuck (s : Logger) : Type 0 where
  pub flushing : s.flushing ≡ true
  pub announcing : s.holder.sending ≢ []
  pub calm : s.holder.closing ≡ 0

-- Nothing moves.
stuck_stays : {s t : Logger} → IsStuck s → Move s t → ⊥
stuck_stays v (receives h p more) = grind (arith, v.flushing)
stuck_stays v (signalled h before after ch e more) = grind (arith, v.flushing)
stuck_stays v (flushes h r more free) = v.announcing free
stuck_stays v (calls_write h r free) = v.announcing free
stuck_stays v (calls_close h free) = v.announcing free
stuck_stays v (opens h f failed free p) = v.announcing free
stuck_stays v (reopens h f failed free p) = v.announcing free
stuck_stays v (finishes h f p) = omega (arith, v.calm)

-- The flush is about to write to an open fifo. If the write fails, the fifo is opened again, and
-- more slices wait, the goroutines come to a state from which none of them moves. The holder is
-- balanced and someone has asked for its signal.
pub failed_write_deadlocks :
    (h : FifoHolder) (cnt x ch : ℕ) (chs : List ℕ)
    → IsBalanced h
    → h.closed ≡ false
    → h.fifo ≡ true
    → h.sending ≡ []
    → h.signal_chs ≡ ch ∷ chs
    → (s : Logger) × Moves (record { holder = h; flushing = true }) s
      × ((t : Logger) → Move s t → ⊥)
unfolding write unlocked_reset finish_reset sync_open_fifo
failed_write_deadlocks h cnt x ch chs v alive fifo free asked =
    let failure : Reply = record { cnt = cnt; err = some (other x) } in
    let failing = (write h failure).0 in
    let again = finish_reset failing false in
    let opened = sync_open_fifo again false in
    (
      record { holder = opened; flushing = true },
      moves (flushes h failure true free) (
          moves (reopens failing true false (ground arith) (ground arith))
            (moves (opens again true false (ground arith) (ground arith)) rests)),
      λ t m.
          stuck_stays (record { flushing = refl; announcing = ground arith; calm = ground arith })
            m,
    )
