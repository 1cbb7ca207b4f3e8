-- ===== src/Bundle/Examples.antt =====
-- Runs of the bundle operations of bundle/bundle.go.
use systemd_runtime.Common.{[], ◌∷◌, none, true, false, ◌≡◌, ◌⊎◌, refl, is_some}
use systemd_runtime.Flock.{unlocked}
use systemd_runtime.Status.{StatusManager, ShimStatus, World, read, no_status}
use systemd_runtime.Status.Locks.{IsHonest, Ends}
use systemd_runtime.Bundle.{disable}
use systemd_runtime.Bundle.Disabling.{disable_lem}

abbrev fresh : StatusManager
fresh = record {
  status_file_locked = false;
  running_file_locked = false;
  status_held = false;
  running_held = false;
  written = [];
}

abbrev gone : ShimStatus
gone = record no_status { pid = 42; created = true }

abbrev gone_disabled : ShimStatus
gone_disabled = record gone { disabled = true }

abbrev finds_gone : World
finds_gone = record {
  tries = record { answer = none; done = false } ∷ [];
  found = read gone;
  running = none;
  probe = unlocked;
  write_err = none;
  unlock_err = none;
}

disable_lem_example :
    Ends fresh
      (λ mng' res.
        (mng'.status_file_locked ≡ false)
        × IsHonest mng'
        × (res.1 ≡ none
            → ((gone.disabled ≡ true) × (mng'.written ≡ fresh.written) × (res.0.0 ≡ gone))
              ⊎ ((gone.disabled ≡ false)
                  × (mng'.written ≡ gone_disabled ∷ fresh.written)
                  × (res.0.0.disabled ≡ false)
                  × (is_some res.0.0.exit ≡ false → res.0.1 ≡ true))))
      (disable fresh finds_gone 100)
disable_lem_example = disable_lem fresh finds_gone 100 gone refl refl refl
