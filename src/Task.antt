-- ===== src/Task.antt =====
-- task/task.go: the task that containerd sees, over the bundle (bundle/bundle.go) and the manager of
-- the connection to the shim (task/connection.go). Calls of the shim's service, of systemd and of
-- the event exchange are results or recorded actions.
pub mod State
pub mod Kill
mod Examples
use systemd_runtime.Common.{
  ℕ, List, [], ◌∷◌, ◌++◌, Option, none, some, Bool, true, false, not, ◌&&◌, ◌||◌, if◌then◌else◌,
  is_some, ◌==◌,
}
use systemd_runtime.Flock.{Error}
use systemd_runtime.Status.{Exit, ShimStatus, StatusManager, World, Result, returns, blocks}
use systemd_runtime.Bundle
use systemd_runtime.Conn
use systemd_runtime.Conn.{
  ConnMng, Service, ServiceSubscribe, Wait, Subscribed, subscribed, not_subscribed, TaskError,
  status_error, Found, found, lacks, get_service, get_running_service, subscribe_service,
  wait_service_connected, set_disabled,
}

pub data Action : Type 0 where
  unit_disabled unit_enabled unit_started unit_stopped unit_deleted bundle_deleted : Action
  exit_published delete_published : Exit → Action

pub record Task : Type 0 where
  pub mng : StatusManager
  pub conn : ConnMng
  pub actions : List Action

pub act : Task → Action → Task
act t a = record t { actions = t.actions ++ (a ∷ []) }

-- How a method ends: with no error, with an error, with an exit, in a call of the shim's service; with
-- a nil pointer; or it waits for the status lock.
pub data End : Type 0 where
  ok panics waits : End
  failed : TaskError → End
  exits : Exit → End
  calls : Service → End

-- `State`; an end `calls se` is a call of `service.State`.
pub data StateEnd : Type 0 where
  stopped : Exit → StateEnd
  created paused panicked waiting : StateEnd
  asks : Service → StateEnd
  refused : Error → StateEnd

state_of : ShimStatus × Bool × Option Error → (opts_err : Option Error) → StateEnd
state_of (status, running, some e) opts_err = refused e
state_of (status, running, none) opts_err =
    if status.disabled && not running
    then elim status.exit [ some e ↦ stopped e | none ↦ panicked ]
    else if status.created
    then elim opts_err [ some e ↦ refused e | none ↦ paused ]
    else created

unfoldable pub state : Task → World → (now : ℕ) → (opts_err : Option Error) → Task × StateEnd
unfolding state_of
state t w now opts_err = elim (get_service t.conn) [
  | some se ↦ (t, asks se)
  | none ↦ elim (Bundle.shim_status t.mng w now) [
    | blocks mng ↦ (record t { mng = mng }, waiting)
    | returns mng res ↦ (record t { mng = mng }, state_of res opts_err)
  ]
]

-- `getRunningService` and a call of the service: `ResizePty`, `CloseIO`, `Exec`, `Checkpoint`, `Update`,
-- `Process`, `Stats`, and `Kill` with another signal than SIGTERM and SIGKILL.
unfoldable pub on_running_service : Task → End
on_running_service t = elim (get_running_service t.conn) [
  | found se ↦ calls se
  | lacks e ↦ failed e
]

-- A call of the service behind `subscribeService`, if no exit came.
service_or : (Exit → End) → Subscribed → End
service_or on_exit (not_subscribed e) = failed e
service_or on_exit (subscribed sub) = elim sub.exit [
  | some e ↦ on_exit e
  | none ↦ elim sub.service [ some se ↦ calls se | none ↦ panics ]
]

-- `Kill` behind `Bundle.Disable`.
kill_disabled : Task → ShimStatus → Bool → Wait → Task × End
unfolding service_or act
kill_disabled t status running wait =
    if running
    then (let (conn, sub) = subscribe_service (Conn.disable t.conn) wait in
        (record t { conn = conn }, service_or (λ e. ok) sub))
    else (let t' = record t { conn = set_disabled t.conn status.exit } in
        elim status.exit [ some e ↦ (act t' (exit_published e), ok) | none ↦ (t', panics) ])

kill_bundle : Task → (ShimStatus × Bool) × Option Error → Wait → Task × End
unfolding kill_disabled
kill_bundle t ((status, running), some e) wait = (t, failed (status_error e))
kill_bundle t ((status, running), none) wait = kill_disabled t status running wait

abbrev pub sigkill : ℕ
sigkill = 9

abbrev pub sigterm : ℕ
sigterm = 15

-- `Kill`; `unit_err` is the error of `DisableIfPresent`.
unfoldable pub kill :
    Task → (sig : ℕ) → World → (now : ℕ) → (unit_err : Option TaskError) → Wait → Task × End
unfolding kill_bundle
kill t sig w now unit_err wait =
    if sig == sigterm || sig == sigkill
    then elim unit_err [
      | some e ↦ (t, failed e)
      | none ↦ elim (Bundle.disable t.mng w now) [
        | blocks mng ↦ (record (act t unit_disabled) { mng = mng }, waits)
        | returns mng res ↦ kill_bundle (record (act t unit_disabled) { mng = mng }) res wait
      ]
    ]
    else (t, on_running_service t)

-- `Pause` and `Resume` stop and start the unit.
unfoldable pub pause : Task → (stop_err : Option TaskError) → Task × End
unfolding act
pause t (some e) = (t, failed e)
pause t none = (act t unit_stopped, ok)

unfoldable pub resume : Task → (start_err : Option TaskError) → Task × End
unfolding act
resume t (some e) = (t, failed e)
resume t none = (act t unit_started, ok)

-- `Pids`; without a service it returns no pids.
unfoldable pub pids : Task → End
pids t = elim (get_service t.conn) [ some se ↦ calls se | none ↦ ok ]

-- `Start`; the errors are those of the unit.
unfoldable pub start : Task → (enable_err start_err : Option TaskError) → Wait → Task × End
unfolding act
start t (some e) start_err wait = (t, failed e)
start t none (some e) wait = (act t unit_enabled, failed e)
start t none none wait =
    let (conn, se, err) = wait_service_connected t.conn wait in
    (
      record (act (act t unit_enabled) unit_started) { conn = conn },
      elim err [ some e ↦ failed e | none ↦ ok ],
    )

-- `Wait`
unfoldable pub wait_task : Task → Wait → Task × End
unfolding service_or
wait_task t wait =
    let (conn, sub) = subscribe_service t.conn wait in
    (record t { conn = conn }, service_or exits sub)

-- The part of `Delete` below an exit: `Cleanup` (its error is logged), `Delete`, the event, and the
-- deferred deletion of the unit if there was no error.
delete_exited :
    Task
    → Exit
    → World
    → (opts_err unlock2 : Option Error) → (now : ℕ) → (delete_err : Option TaskError) → Task × End
unfolding act
delete_exited t e w opts_err unlock2 now delete_err =
    elim (Bundle.cleanup t.mng w opts_err unlock2 now) [
      | blocks mng ↦ (record t { mng = mng }, waits)
      | returns mng res ↦ elim delete_err [
        | some x ↦ (record t { mng = mng }, failed x)
        | none ↦ (
          act (act (act (record t { mng = mng }) bundle_deleted) (delete_published e)) unit_deleted,
          exits e,
        )
      ]
    ]

delete_subscribed :
    Task
    → Subscribed
    → World
    → (opts_err unlock2 : Option Error) → (now : ℕ) → (delete_err : Option TaskError) → Task × End
unfolding delete_exited
delete_subscribed t (not_subscribed e) w opts_err unlock2 now delete_err = (t, failed e)
delete_subscribed t (subscribed sub) w opts_err unlock2 now delete_err = elim sub.exit [
  | some e ↦ delete_exited t e w opts_err unlock2 now delete_err
  | none ↦ elim sub.service [ some se ↦ (t, calls se) | none ↦ (t, panics) ]
]

-- `Delete`; behind a call of `service.Delete` without an error the unit is deleted too.
unfoldable pub delete :
    Task
    → Wait
    → World
    → (opts_err unlock2 : Option Error) → (now : ℕ) → (delete_err : Option TaskError) → Task × End
unfolding delete_subscribed
delete t wait w opts_err unlock2 now delete_err =
    let (conn, sub) = subscribe_service t.conn wait in
    delete_subscribed (record t { conn = conn }) sub w opts_err unlock2 now delete_err
