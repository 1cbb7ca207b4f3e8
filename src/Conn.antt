-- ===== src/Conn.antt =====
-- task/connection.go: the manager of the connection between a task and its shim. Each method runs
-- under the mutex of `ConnMng`, so a run of the program is a sequence of them. `Disabled` and
-- `setService` send behind the unlock, to channels that they have taken off the list, each with
-- room for one value: the sends are put in the step of the method.
pub mod Inv
pub mod Steps
pub mod Deliver
pub mod Connect
mod Examples
use systemd_runtime.Common.{
  ℕ, suc, ◌+◌, List, [], ◌∷◌, ◌++◌, Option, none, some, Bool, true, false, not, ◌&&◌, if◌then◌else◌,
  is_some, leb,
}
use systemd_runtime.Flock.{Error}
use systemd_runtime.Status.{Exit, ShimStatus}

-- The client of a shim, by the pid of its task.
pub record Service : Type 0 where
  pub task_pid : ℕ

pub record ServiceSubscribe : Type 0 where
  pub service : Option Service
  pub exit : Option Exit

abbrev pub nothing : ServiceSubscribe
nothing = record { service = none; exit = none }

abbrev pub by_service : Service → ServiceSubscribe
by_service se = record { service = some se; exit = none }

-- `ErrTaskIsPaused`, `ErrTaskIsKilled`, `ctx.Err()`, errors of the bundle, and of other parts.
pub data TaskError : Type 0 where
  task_is_paused task_is_killed context_done : TaskError
  status_error : Error → TaskError
  other : ℕ → TaskError

-- A channel is a number. `sent` has, for each channel that was sent to and closed, what was sent.
-- `cancels` counts the calls of the cancel function of the connection.
pub record ConnMng : Type 0 where
  pub cancel_set : Bool
  pub cancels : ℕ
  pub disabled : Bool
  pub last_subscribe : ServiceSubscribe
  pub subscribers : List ℕ
  pub sent : List (ℕ × ServiceSubscribe)
  pub next_channel : ℕ

unfoldable pub new_conn_mng : ConnMng
new_conn_mng = record {
  cancel_set = false;
  cancels = 0;
  disabled = false;
  last_subscribe = nothing;
  subscribers = [];
  sent = [];
  next_channel = 0;
}

pub data Found : Type 0 where
  found : Service → Found
  lacks : TaskError → Found

unfoldable pub get_service : ConnMng → Option Service
get_service s = s.last_subscribe.service

unfoldable pub get_running_service : ConnMng → Found
get_running_service s = elim s.last_subscribe.service [
  | some se ↦ found se
  | none ↦ if is_some s.last_subscribe.exit then lacks task_is_killed else lacks task_is_paused
]

-- `CancelConn.Set` and `CancelConn.Cancel`
pub cancel_conn_set : ConnMng → ConnMng
cancel_conn_set s = record s { cancel_set = true }

pub cancel_conn_cancel : ConnMng → ConnMng
cancel_conn_cancel s =
    if s.cancel_set then record s { cancel_set = false; cancels = s.cancels + 1 } else s

-- `subscribe`: the new channel.
unfoldable pub subscribe : ConnMng → ConnMng × ℕ
subscribe s =
    let ch = s.next_channel in
    let t = record s { next_channel = suc ch } in
    elim s.last_subscribe.service [
      | some se ↦ (record t { sent = t.sent ++ ((ch, by_service se) ∷ []) }, ch)
      | none ↦ elim s.last_subscribe.exit [
        | some e ↦ (
          record t { sent = t.sent ++ ((ch, record { service = none; exit = some e }) ∷ []) },
          ch,
        )
        | none ↦ (record t { subscribers = t.subscribers ++ (ch ∷ []) }, ch)
      ]
    ]

-- The loop over the subscribers: send and close.
pub send_all : List (ℕ × ServiceSubscribe) → ServiceSubscribe → List ℕ → List (ℕ × ServiceSubscribe)
send_all sent sub [] = sent
send_all sent sub (ch ∷ chs) = send_all (sent ++ ((ch, sub) ∷ [])) sub chs

publish_to_all : ConnMng → ServiceSubscribe → ConnMng
unfolding send_all
publish_to_all s sub = record s {
  last_subscribe = sub;
  subscribers = [];
  sent = send_all s.sent sub s.subscribers;
}

unfoldable pub disable : ConnMng → ConnMng
disable s = record s { disabled = true }

-- `Disabled(exit)`
unfoldable pub set_disabled : ConnMng → Option Exit → ConnMng
unfolding publish_to_all cancel_conn_cancel
set_disabled s exit =
    publish_to_all (record (cancel_conn_cancel s) { disabled = true })
      (record { service = none; exit = exit })

unfoldable pub set_service : ConnMng → Service → ConnMng
unfolding publish_to_all
set_service s se = publish_to_all s (by_service se)

unfoldable pub reset : ConnMng → ConnMng
reset s = record s { last_subscribe = nothing }

-- How a call of `doConnect` goes: no address comes over the fifo, the shim cannot be connected, or
-- its service is there.
pub data Dial : Type 0 where
  no_address no_connection : Dial
  reached : Service → Dial

-- `getAddr` sets the cancel function, and calls it when it returns.
get_addr : ConnMng → ConnMng
unfolding cancel_conn_set cancel_conn_cancel
get_addr s = cancel_conn_cancel (cancel_conn_set s)

conn_on_addr : ConnMng → Dial → ConnMng × Bool
conn_on_addr s (reached se) = (set_service s se, true)
conn_on_addr s _ = (s, false)

unfoldable pub do_connect : ConnMng → Dial → ConnMng × Bool
unfolding get_addr conn_on_addr
do_connect s dial = conn_on_addr (get_addr s) dial

-- `reconnect`, up to the start of `connect` in its goroutine.
unfoldable pub reconnect : ConnMng → ConnMng
reconnect s = reset s

-- How the `select` of `subscribeService` ends.
pub data Wait : Type 0 where
  done timeout : Wait
  receives : ServiceSubscribe → Wait

pub data Subscribed : Type 0 where
  subscribed : ServiceSubscribe → Subscribed
  not_subscribed : TaskError → Subscribed

after_wait : Wait → Subscribed
after_wait done = not_subscribed context_done
after_wait timeout = not_subscribed task_is_paused
after_wait (receives sub) = subscribed sub

unfoldable pub subscribe_service : ConnMng → Wait → ConnMng × Subscribed
unfolding after_wait
subscribe_service s wait = ((subscribe s).0, after_wait wait)

connected_service : Subscribed → Option Service × Option TaskError
connected_service (not_subscribed e) = (none, some e)
connected_service (subscribed sub) =
    if is_some sub.exit then (none, some task_is_killed) else (sub.service, none)

-- `waitServiceConnected`
unfoldable pub wait_service_connected : ConnMng → Wait → ConnMng × Option Service × Option TaskError
unfolding connected_service
wait_service_connected s wait =
    let (s', r) = subscribe_service s wait in let (se, err) = connected_service r in (s', se, err)

abbrev pub max_retry : ℕ
max_retry = 10

-- What one round of the loop of `connect` meets: the flag as it is read; the answer of
-- `ShimStatus`; how `doConnect` ends. The error of `Cleanup` is only logged.
pub record Round : Type 0 where
  pub disabled : Bool
  pub status : ShimStatus
  pub running : Bool
  pub status_err : Option TaskError
  pub connection : Option Service

pub data ConnectEnd : Type 0 where
  saw_disabled : ConnectEnd
  gave_up : ConnectEnd
  shim_exited : Option Exit → ConnectEnd
  connected : Service → ConnectEnd
  looping : ℕ → ConnectEnd

-- `connect` from a retry count on; `looping` says that the given rounds are over.
unfoldable pub connect : ℕ → List Round → ConnectEnd
connect retry [] = looping retry
connect retry (r ∷ rs) =
    let retry' = if is_some r.status_err then retry + 1 else retry in
    let rest = connect retry' rs in
    if r.disabled
    then saw_disabled
    else if leb max_retry retry'
    then gave_up
    else if r.status.disabled && not r.running
    then shim_exited r.status.exit
    else elim r.connection [ some se ↦ connected se | none ↦ rest ]

-- What the end of `connect` does to the manager; `gave_up` deletes the bundle.
unfoldable pub after_connect : ConnectEnd → ConnMng → ConnMng
after_connect saw_disabled s = s
after_connect gave_up s = s
after_connect (shim_exited exit) s = set_disabled s exit
after_connect (connected se) s = set_service s se
after_connect (looping n) s = s
