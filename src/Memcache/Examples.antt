-- ===== src/Memcache/Examples.antt =====
-- Runs of the memory log of tasklog/memcache.go.
use systemd_runtime.Common.{◌+◌, [], ◌∷◌, ◌++◌, none, some, false, ◌≡◌, refl, arith, replicate, map}
use systemd_runtime.Queue
use systemd_runtime.Queue.{BytesQueue, ByteSlice}
use systemd_runtime.Queue.Cells.{contents}
use systemd_runtime.Memcache.{MemCachedLog, Reply, Sink, done, running, write, flush_buffer_to_fifo}
use systemd_runtime.Memcache.Inv.{IsValid, AllLogs}
use systemd_runtime.Memcache.Stream.{waiting, IsHonest, Returns}
use systemd_runtime.Memcache.Write.{write-IsValid, accepted}
use systemd_runtime.Memcache.Shared.{
  Memory, after_call, write_in, stream, Appends, write_in-Appends,
}
use systemd_runtime.Memcache.Copying.{copy_buffer, idle_read}
use systemd_runtime.Memcache.Overwritten.{chunks_overwritten}
use systemd_runtime.Memcache.Flush.{accept, flush_accepts, Flushed}
use systemd_runtime.Memcache.Faults.{not_opened, partial, flush_spins}

abbrev sink : Sink
sink = record { taken = []; closes = 0 }

-- Two slices wait, from index 4 round to index 0.
abbrev two : MemCachedLog
two = record {
  fifo = sink;
  buffer = record {
    buffer = some (3 ∷ []) ∷ none ∷ none ∷ none ∷ some (1 ∷ 2 ∷ []) ∷ [];
    size = 2;
    head = 4;
    tail = 0;
  };
  closed = false;
}

two-IsValid : IsValid two
two-IsValid = record {
  queue = omega arith;
  limited = omega arith;
  floor = omega arith;
  ceiling = omega arith;
}

contents-two : contents two.buffer ≡ some (1 ∷ 2 ∷ []) ∷ some (3 ∷ []) ∷ []
unfolding contents
contents-two = refl

abbrev empty_log : MemCachedLog
empty_log = record two { buffer = Queue.new_bytes_queue }

empty_log-IsValid : IsValid empty_log
empty_log-IsValid = record {
  queue = Queue.Inv.new-IsValid;
  limited = omega arith;
  floor = omega arith;
  ceiling = omega arith;
}

abbrev seven : ByteSlice
seven = some (7 ∷ 8 ∷ 9 ∷ [])

-- The fifo takes one byte of three.
abbrev short : Reply
short = partial 1 5

write-IsValid_example : AllLogs IsValid (λ r. r.0) (write empty_log seven short)
write-IsValid_example = write-IsValid empty_log seven short empty_log-IsValid

short-IsHonest : IsHonest seven short
short-IsHonest = record {
  bound = omega arith;
  full = λ h. let no_case : ⊥ = cc in absurd no_case;
  idle = λ h. let no_case : ⊥ = cc in absurd no_case;
}

-- The slice `seven` is at the places 7, 8 and 9.
abbrev memory : Memory
memory = record { store = λ i. 65 + i; log = empty_log; seen = [] }

write_in-Appends_example :
    Returns (Appends memory seven (accepted empty_log short)) (write_in memory seven short)
write_in-Appends_example =
    write_in-Appends memory seven short empty_log-IsValid refl (omega arith) short-IsHonest
      (λ e h. cc)

-- The buffer of the copy is at the places 0 on; three chunks of two bytes are read.
chunks_overwritten_example :
    (m' : Memory) × (copy_buffer 0
        (map idle_read ((1 ∷ 2 ∷ []) ∷ (3 ∷ 4 ∷ []) ∷ []) ++ (idle_read (5 ∷ 6 ∷ []) ∷ []))
        memory
      ≡ done m')
    × (stream m' ≡ ([] ++ map m'.store (waiting empty_log)) ++ (5 ∷ 6 ∷ 5 ∷ 6 ∷ 5 ∷ 6 ∷ []))
    × (log' : MemCachedLog) × (flush_buffer_to_fifo (map accept (contents m'.log.buffer)) m'.log
        ≡ done log')
    × ((after_call m' log').seen ≡ stream m')
chunks_overwritten_example =
    chunks_overwritten 0 1 ((1 ∷ 2 ∷ []) ∷ (3 ∷ 4 ∷ []) ∷ []) (5 ∷ 6 ∷ []) memory empty_log-IsValid
      refl (omega arith) (refl, (refl, tt)) refl

flush_accepts_example :
    (log' : MemCachedLog) × (flush_buffer_to_fifo
        (map accept (some (1 ∷ 2 ∷ []) ∷ some (3 ∷ []) ∷ []) ++ (not_opened ∷ []))
        two
      ≡ done log')
    × Flushed two (some (1 ∷ 2 ∷ []) ∷ some (3 ∷ []) ∷ []) log'
flush_accepts_example =
    flush_accepts (some (1 ∷ 2 ∷ []) ∷ some (3 ∷ []) ∷ []) (not_opened ∷ []) two two-IsValid
      contents-two

flush_spins_example :
    (log' : MemCachedLog) × (flush_buffer_to_fifo (replicate 3 not_opened) two ≡ running log')
    × (contents log'.buffer ≡ some (3 ∷ []) ∷ some (1 ∷ 2 ∷ []) ∷ [])
    × (log'.fifo.taken ≡ [])
flush_spins_example =
    flush_spins 3 two ((1 ∷ 2 ∷ []) ∷ (3 ∷ []) ∷ []) two-IsValid contents-two (omega arith)
      (omega arith)
