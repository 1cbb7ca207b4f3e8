-- ===== src/Container/Examples.antt =====
-- Runs of the container of runc/container.go.
use systemd_runtime.Container.{group}
use systemd_runtime.Common.Maps.{lookup}
use systemd_runtime.Common.{ℕ, none, some, true, false, ◌≡◌, ◌≢◌, refl}
use systemd_runtime.Process.Init.{new_init}
use systemd_runtime.Process.Exec.{new_exec}
use systemd_runtime.Container.{
  Container, Process, Error, new_container, reserve_process, exec_reserved, contains, done, failed,
}
use systemd_runtime.Container.Reserve.{Reach, created, next, reserves, reserved_exec}

abbrev empty : Container
empty = new_container (new_init false true) group

-- The container in which 7 is reserved.
abbrev reserved : Container
reserved = (reserve_process empty 7).0

reserved-Reach : Reach (new_init false true) reserved
reserved-Reach = next (created group) (reserves empty 7)

reserved_contains : contains 7 reserved.reserved_process ≡ true
unfolding new_container reserve_process lookup contains
reserved_contains = refl

reserved_exec_example :
    let (c', end) = exec_reserved reserved 7 false true none in
    ((reserve_process reserved 7).1 ≡ false)
    × (lookup 7 reserved.processes ≡ none)
    × (contains 7 c'.reserved_process ≡ false)
    × ((k : ℕ) → k ≢ 7 → lookup k c'.processes ≡ lookup k reserved.processes)
    × ((q : Process) → end ≡ done q → lookup 7 c'.processes ≡ some (new_exec false true))
    × ((e : Error)
        → end ≡ failed e
        → (c'.processes ≡ reserved.processes) × ((reserve_process c' 7).1 ≡ true))
reserved_exec_example = reserved_exec 7 false true none reserved-Reach reserved_contains
