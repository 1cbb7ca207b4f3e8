-- ===== src/Conn/Examples.antt =====
-- Runs of the connection manager of task/connection.go.
use systemd_runtime.Common.{List, [], ◌∷◌, some, none, true, false, ◌≡◌, refl}
use systemd_runtime.Status.{no_status}
use systemd_runtime.Conn.{
  ConnMng, Service, new_conn_mng, subscribe, set_service, Round, other, connect, gave_up,
}
use systemd_runtime.Conn.Inv.{IsValid}
use systemd_runtime.Conn.Steps.{start, next, subscribes, sets_service, Reach-IsValid}

abbrev shim : Service
shim = record { task_pid = 42 }

-- One channel waits.
abbrev waiting : ConnMng
waiting = (subscribe new_conn_mng).0

-- A channel waits, is told the service, and the connection is lost.
Reach-IsValid_example : IsValid (set_service (subscribe new_conn_mng).0 shim)
Reach-IsValid_example =
    Reach-IsValid (next (next start (subscribes new_conn_mng)) (sets_service waiting shim))

-- The status cannot be read, and no connection is made.
abbrev failing : Round
failing = record {
  disabled = false;
  status = no_status;
  running = true;
  status_err = some (other 5);
  connection = none;
}

-- The tenth failure ends the loop.
abbrev two_rounds : List Round
two_rounds = failing ∷ failing ∷ []

two_rounds_gave_up : connect 8 two_rounds ≡ gave_up
unfolding connect
two_rounds_gave_up = refl

-- A round in which the status cannot be read.
abbrev unread : Round
unread = record {
  disabled = false;
  status = no_status;
  running = false;
  status_err = some (other 5);
  connection = none;
}
