-- ===== src/Container/Ids.antt =====
-- The ids of runc/container.go: an id that is reserved for an `Exec` has no process, in every
-- interleaving of the calls of a shim.
use systemd_runtime.Common.Maps.{lookup, lookup-insert, lookup-erase}
use systemd_runtime.Common.{
  ℕ, List, [], ◌∷◌, none, some, true, false, ◌==◌, ==→eq, if◌then◌else◌, ◌≡◌, arith,
}
use systemd_runtime.Process.Init.{Init}
use systemd_runtime.Process.Exec.{ExecProcess}
use systemd_runtime.Container.{
  Container, init_process, exec_process, contains, without, reserve_process, cancel_reserve,
  process_add, process_remove, put_process,
}

pub contains-without :
    (j k : ℕ) (m : List ℕ) → contains j (without k m) ≡ (if k == j then false else contains j m)
unfolding contains without
contains-without j k [] = ground arith
contains-without j k (i ∷ m) = ground (arith, contains-without j k m)

-- No id is reserved while a process has it.
pub record IsValid (c : Container) : Type 0 where
  pub apart : (k : ℕ) → contains k c.reserved_process ≡ true → lookup k c.processes ≡ none

pub put_found :
    (c : Container) (id : ℕ) (e : ExecProcess) {q : ExecProcess}
    → lookup id c.processes ≡ some q
    → IsValid c
    → IsValid (put_process c (exec_process id e))
unfolding put_process
put_found c id e h v = record {
  apart = λ k r. ground (arith, lookup-insert k id e c.processes, v.apart k r);
}

pub exec-IsValid :
    (c : Container) (id : ℕ) (e : ExecProcess) → IsValid c → IsValid (process_add c id e)
unfolding process_add
exec-IsValid c id e v = record {
  apart = λ k r. ground (
    arith,
    lookup-insert k id e c.processes,
    contains-without k id c.reserved_process,
    v.apart k,
  );
}

pub reserve-IsValid : (c : Container) (id : ℕ) → IsValid c → IsValid (reserve_process c id).0
unfolding reserve_process contains
reserve-IsValid c id v = record { apart = λ k r. ground (arith, v.apart k, ==→eq id k) }

pub cancel-IsValid : (c : Container) (id : ℕ) → IsValid c → IsValid (cancel_reserve c id)
unfolding cancel_reserve
cancel-IsValid c id v = record {
  apart = λ k r. ground (arith, contains-without k id c.reserved_process, v.apart k);
}

pub remove-IsValid : (c : Container) (id : ℕ) → IsValid c → IsValid (process_remove c id)
unfolding process_remove
remove-IsValid c id v = record {
  apart = λ k r. ground (arith, lookup-erase k id c.processes, v.apart k);
}

pub put_init-IsValid :
    (c : Container) (p : Init) → IsValid c → IsValid (put_process c (init_process p))
unfolding put_process
put_init-IsValid c p v = record { apart = v.apart }
