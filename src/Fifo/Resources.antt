-- ===== src/Fifo/Resources.antt =====
-- What the holder of tasklog/fifo.go keeps of its files in every interleaving.
use systemd_runtime.Common.{
  ℕ, ◌+◌, ◌≤◌, ◌<◌, ◌≡◌, ◌≢◌, refl, Bool, true, false, [], ◌∷◌, ◌++◌, List, arith,
}
use systemd_runtime.Memcache.{Reply}
use systemd_runtime.Fifo.{
  FifoHolder, new_fifo, signal, write, unlocked_reset, unlocked_close, close, finish_close,
  sync_open_fifo, finish_reset, sent_next,
}

-- What the process does next. A call waits for the mutex, which `syncOpenFifo` has while it sends.
pub data Step : FifoHolder → FifoHolder → Type 0 where
  signals : (h : FifoHolder) → h.sending ≡ [] → Step h (signal h).0
  writes : (h : FifoHolder) (r : Reply) → h.sending ≡ [] → Step h (write h r).0
  closes : (h : FifoHolder) → h.sending ≡ [] → Step h (close h)
  opens :
      (h : FifoHolder) (failed : Bool)
      → h.sending ≡ []
      → 0 < h.opening
      → Step h (sync_open_fifo h failed)
  reopens :
      (h : FifoHolder) (failed : Bool)
      → h.sending ≡ []
      → 0 < h.resetting
      → Step h (finish_reset h failed)
  finishes : (h : FifoHolder) → 0 < h.closing → Step h (finish_close h)
  receives : (h : FifoHolder) → h.sending ≢ [] → Step h (sent_next h)
  signalled :
      (h : FifoHolder) (before after : List ℕ) (ch : ℕ)
      → h.senders ≡ before ++ (ch ∷ after)
      → Step h (record h { senders = before ++ after })

pub data Reach : FifoHolder → Type 0 where
  start : Reach new_fifo
  next : {g h : FifoHolder} → Reach g → Step g h → Reach h

abbrev pub number : Bool → ℕ
number true = 1
number false = 0

-- An open holder has its fifo, or exactly one goroutine that is getting it one. Each opened fifo is
-- in the field, with a goroutine that closes it, or closed; likewise each handle.
pub record IsBalanced (h : FifoHolder) : Type 0 where
  pub shut : h.closed ≡ true → h.fifo ≡ false
  pub paired : h.closed ≡ false → h.handle ≡ h.fifo
  pub one : h.closed ≡ false → number h.fifo + h.opening + h.resetting ≡ 1
  pub calm : h.closed ≡ false → h.closing ≡ 0
  pub most : h.opening + h.resetting ≤ 1
  pub fifos : h.fifos_opened ≡ number h.fifo + h.resetting + h.closing + h.fifos_closed
  pub handles : h.handles_made ≡ number h.handle + h.opening + h.resetting + h.handles_closed

Step-IsBalanced : {g h : FifoHolder} → Step g h → IsBalanced g → IsBalanced h
unfolding signal write unlocked_reset unlocked_close close finish_close sync_open_fifo finish_reset
    sent_next
Step-IsBalanced (signals h free) v = ground arith
Step-IsBalanced (writes h r free) v = ground arith
Step-IsBalanced (closes h free) v = ground arith
Step-IsBalanced (opens h failed free p) v = ground arith
Step-IsBalanced (reopens h failed free p) v = ground arith
Step-IsBalanced (finishes h p) v = ground arith
Step-IsBalanced (receives h p) v = ground arith
Step-IsBalanced (signalled h before after ch e) v = ground arith

new_fifo-IsBalanced : IsBalanced new_fifo
unfolding new_fifo
new_fifo-IsBalanced = record {
  shut = λ e. refl;
  paired = λ e. refl;
  one = λ e. refl;
  calm = λ e. refl;
  most = omega arith;
  fifos = refl;
  handles = refl;
}

-- In every interleaving of the goroutines, from a new holder on: an open holder has its fifo or
-- exactly one goroutine that is getting it one; the fifos that were opened are as many as those in
-- the field, with a goroutine that closes them, and closed; likewise the handles that were made.
pub Reach-IsBalanced : {h : FifoHolder} → Reach h → IsBalanced h
Reach-IsBalanced start = new_fifo-IsBalanced
Reach-IsBalanced (next r st) = Step-IsBalanced st (Reach-IsBalanced r)

pub data Steps : FifoHolder → FifoHolder → Type 0 where
  rests : {h : FifoHolder} → Steps h h
  steps : {g h i : FifoHolder} → Step g h → Steps h i → Steps g i

-- A closed holder whose handle is set.
record IsLeaking (h : FifoHolder) : Type 0 where
  is_closed : h.closed ≡ true
  has_handle : h.handle ≡ true

Step-IsLeaking : {g h : FifoHolder} → Step g h → IsLeaking g → IsLeaking h
unfolding signal write unlocked_reset unlocked_close close finish_close sync_open_fifo finish_reset
    sent_next
Step-IsLeaking (signals h free) v = ground arith
Step-IsLeaking (writes h r free) v = ground arith
Step-IsLeaking (closes h free) v = ground arith
Step-IsLeaking (opens h failed free p) v = ground arith
Step-IsLeaking (reopens h failed free p) v = ground arith
Step-IsLeaking (finishes h p) v = ground arith
Step-IsLeaking (receives h p) v = ground arith
Step-IsLeaking (signalled h before after ch e) v = ground arith

Reach-steps : {g h : FifoHolder} → Reach g → Steps g h → Reach h
Reach-steps r rests = r
Reach-steps r (steps st rest) = Reach-steps (next r st) rest

Steps-IsLeaking : {g h : FifoHolder} → Steps g h → IsLeaking g → IsLeaking h
Steps-IsLeaking rests v = v
Steps-IsLeaking (steps st rest) v = Steps-IsLeaking rest (Step-IsLeaking st v)

close-IsLeaking : (h : FifoHolder) → IsBalanced h → h.fifo ≡ true → IsLeaking (close h)
unfolding close unlocked_close
close-IsLeaking h v e = ground arith

-- `Close` of a holder that has its fifo open leaves the handle open: whatever the goroutines do from
-- then on, fewer handles have been closed than were made.
close_leaks :
    (h i : FifoHolder)
    → Reach h
    → h.fifo ≡ true
    → h.sending ≡ []
    → Steps (close h) i
    → i.handles_closed < i.handles_made
close_leaks h i r e free rest =
    let b = Reach-IsBalanced (Reach-steps (next r (closes h free)) rest) in
    let l = Steps-IsLeaking rest (close-IsLeaking h (Reach-IsBalanced r) e) in ground (arith, b, l)
