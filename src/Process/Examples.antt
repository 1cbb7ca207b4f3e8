-- ===== src/Process/Examples.antt =====
-- Lives of the processes of process/.
use systemd_runtime.Common.{[], ◌∷◌, none, true, false, refl}
use systemd_runtime.Process.{IoWorld}
use systemd_runtime.Process.Init.{new_init}
use systemd_runtime.Process.Init.Lifecycle
use systemd_runtime.Process.Init.Lifecycle.{
  step, run, starts, deletes, pauses, resumes, exits, Kept, ◌⟶◌, run-Kept,
}

abbrev fine : IoWorld
fine = record {
  socket_err = none;
  io_err = none;
  run_err = none;
  stdin_err = none;
  master_err = none;
  console_err = none;
  copy_err = none;
  pid_err = none;
  pid = 42;
}

new_init-IsValid : Lifecycle.IsValid (new_init false true)
unfolding new_init
new_init-IsValid = record { released = refl; alive = λ h. refl; ended = λ h. cc; idle = refl }

run-Kept_example :
    Lifecycle.IsValid (
      run
        (new_init false true)
        (starts fine ∷ pauses none ∷ exits 137 100 ∷ exits 0 200 ∷ deletes none none ∷ []))
    × Kept (new_init false true) (
        run
          (new_init false true)
          (starts fine ∷ pauses none ∷ exits 137 100 ∷ exits 0 200 ∷ deletes none none ∷ []))
run-Kept_example =
    run-Kept (new_init false true)
      (starts fine ∷ pauses none ∷ exits 137 100 ∷ exits 0 200 ∷ deletes none none ∷ [])
      new_init-IsValid
