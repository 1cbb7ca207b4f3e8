-- ===== src/Conn/Steps.antt =====
-- The interleavings of the methods of task/connection.go.
use systemd_runtime.Common.{Option, true}
use systemd_runtime.Status.{Exit}
use systemd_runtime.Conn.{
  ConnMng, Service, new_conn_mng, subscribe, disable, set_disabled, set_service, reset,
  cancel_conn_cancel, cancel_conn_set, Dial, reached, no_address, no_connection, do_connect,
  reconnect,
}
use systemd_runtime.Conn.Inv.{
  IsValid, subscribe-IsValid, set_service-IsValid, set_disabled-IsValid, keeps-IsValid,
  cancel-IsValid, new-IsValid, reset-IsValid,
}

-- What the goroutines of a task can do to the manager, one critical section at a time.
pub data Step : ConnMng → ConnMng → Type 0 where
  subscribes : (s : ConnMng) → Step s (subscribe s).0
  sets_service : (s : ConnMng) (se : Service) → Step s (set_service s se)
  sets_disabled : (s : ConnMng) (exit : Option Exit) → Step s (set_disabled s exit)
  disables : (s : ConnMng) → Step s (disable s)
  resets : (s : ConnMng) → Step s (reset s)
  sets_cancel : (s : ConnMng) → Step s (cancel_conn_set s)
  cancels : (s : ConnMng) → Step s (cancel_conn_cancel s)
  dials : (s : ConnMng) (dial : Dial) → Step s (do_connect s dial).0
  reconnects : (s : ConnMng) → Step s (reconnect s)

pub data Reach : ConnMng → Type 0 where
  start : Reach new_conn_mng
  next : {s t : ConnMng} → Reach s → Step s t → Reach t

asked_cancel : (s : ConnMng) → IsValid s → IsValid (cancel_conn_cancel (cancel_conn_set s))
unfolding cancel_conn_set
asked_cancel s v =
    cancel-IsValid (record s { cancel_set = true }) (keeps-IsValid s true s.disabled s.cancels v)

dial-IsValid : (s : ConnMng) (dial : Dial) → IsValid s → IsValid (do_connect s dial).0
unfolding do_connect cancel_conn_set
dial-IsValid s (reached se) v =
    set_service-IsValid (cancel_conn_cancel (cancel_conn_set s)) se (asked_cancel s v)
dial-IsValid s no_address v = asked_cancel s v
dial-IsValid s no_connection v = asked_cancel s v

Step-IsValid : {s t : ConnMng} → Step s t → IsValid s → IsValid t
unfolding reconnect disable cancel_conn_set
Step-IsValid (subscribes s) v = subscribe-IsValid s v
Step-IsValid (sets_service s se) v = set_service-IsValid s se v
Step-IsValid (sets_disabled s exit) v = set_disabled-IsValid s exit v
Step-IsValid (disables s) v = keeps-IsValid s s.cancel_set true s.cancels v
Step-IsValid (resets s) v = reset-IsValid s v
Step-IsValid (sets_cancel s) v = keeps-IsValid s true s.disabled s.cancels v
Step-IsValid (cancels s) v = cancel-IsValid s v
Step-IsValid (dials s dial) v = dial-IsValid s dial v
Step-IsValid (reconnects s) v = reset-IsValid s v

-- In every interleaving of the methods of `ConnMng`, from a new manager on: no channel was or will
-- be sent to twice, the manager never knows both a service and an exit, and no channel waits
-- while it knows one of them.
pub Reach-IsValid : {s : ConnMng} → Reach s → IsValid s
Reach-IsValid start = new-IsValid
Reach-IsValid (next r st) = Step-IsValid st (Reach-IsValid r)
