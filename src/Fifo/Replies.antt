-- ===== src/Fifo/Replies.antt =====
-- What the writer of tasklog/memcache.go gets from the fifo of tasklog/fifo.go.
use systemd_runtime.Common.{
  ◌<◌, ◌≡◌, ◌≢◌, true, false, some, arith, is_some, subst, ◌&&◌, if◌then◌else◌,
}
use systemd_runtime.Queue.{ByteSlice, is_empty}
use systemd_runtime.Memcache.{Reply, fifo_closed, fifo_not_opened}
use systemd_runtime.Memcache.Inv.{IsValid}
use systemd_runtime.Memcache.Stream.{IsHonest, Returns}
use systemd_runtime.Memcache.Write.{accepted}
use systemd_runtime.Memcache.Shared.{Memory, write_in, Appends, write_in-Appends}
use systemd_runtime.Fifo.{FifoHolder, write, unlocked_reset}
use systemd_runtime.Fifo.Resources.{IsBalanced}

-- What the open file answers: it takes no more than the slice, and all of it without an error; it
-- does not use the two errors of the holder.
pub record IsFile (b : ByteSlice) (r : Reply) : Type 0 where
  pub honest : IsHonest b r
  pub not_closed : r.err ≢ some fifo_closed
  pub not_idle : r.err ≢ some fifo_not_opened

-- `Write` of the holder on any file is an honest fifo. It answers `ErrFifoClosed` only if the holder is
-- closed, and behind an answer with an error the holder has no fifo.
pub write-IsHonest :
    (h : FifoHolder) (b : ByteSlice) (r : Reply)
    → IsBalanced h
    → IsFile b r
    → IsHonest b (write h r).1
      × ((write h r).1.err ≡ some fifo_closed → h.closed ≡ true)
      × (is_some (write h r).1.err ≡ true → (write h r).0.fifo ≡ false)
unfolding write unlocked_reset
write-IsHonest h b r v f = ground arith

accepted_file :
    (h : FifoHolder) (m : Memory) (r : Reply)
    → h.closed ≡ false
    → accepted m.log (write h r).1 ≡ (if is_empty m.log.buffer && h.fifo then r.cnt else 0)
unfolding write unlocked_reset
accepted_file h m r alive = ground arith

-- `Write` of an open log with fewer than 1024 waiting slices, over a holder that is not closed, returns
-- without an error, whatever the file answers: what the file takes of the slice, nothing if the holder
-- has no file or if slices wait, comes out behind what came out before; the rest waits behind what
-- waited, by reference to the memory of the caller.
log_write-Appends :
    (h : FifoHolder) (m : Memory) (b : ByteSlice) (r : Reply)
    → IsBalanced h
    → h.closed ≡ false
    → IsFile b r
    → IsValid m.log
    → m.log.closed ≡ false
    → m.log.buffer.size < 1024
    → Returns
        (Appends m b (if is_empty m.log.buffer && h.fifo then r.cnt else 0))
        (write_in m b (write h r).1)
log_write-Appends h m b r v alive f w enabled room =
    let (honest, shut, idle) = write-IsHonest h b r v f in
    subst (λ k. Returns (Appends m b k) (write_in m b (write h r).1)) (accepted_file h m r alive)
      (write_in-Appends m b (write h r).1 w enabled room honest (λ e c. grind (arith, shut)))
