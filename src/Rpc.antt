-- ===== src/Rpc.antt =====
-- The calls between containerd and a shim: what they carry, the interface `ShimService` of
-- shim/service.go, and the interface `TaskService` of the protocol. A text is a number, and 0 is the
-- empty one. Server is shim/rpc.go, Client task/task_service.go and ClientProcess task/process.go.
pub mod Server
pub mod Client
pub mod ClientProcess
pub mod Remote
pub mod Service
pub mod Killed
mod Examples
use systemd_runtime.Common.{ℕ, List, Option, Bool}
use systemd_runtime.Status.{Exit}

-- Errors: those of `errdefs` that the code names, `ttrpc.ErrClosed`, and any other.
pub data Error : Type 0 where
  not_implemented not_found closed : Error
  invalid : (id : ℕ) → Error
  other : ℕ → Error

-- How a call ends; `lost` says that it does not come back, or with the end of the shim.
pub data Reply (A : Type 0) : Type 0 where
  returned : A → Reply A
  failed : Error → Reply A
  lost : Reply A

-- What the packages of containerd and ttrpc do to errors: `errdefs.ToGRPC`, the way through the
-- connection, and `errdefs.FromGRPC`; and `identifiers.Validate`.
pub record Codes : Type 0 where
  pub to_grpc : Error → Error
  pub carry : Error → Error
  pub from_grpc : Error → Error
  pub valid_id : ℕ → Bool

-- `errdefs.ToGRPC(err)` and the like, in place of the error.
abbrev pub map_error : {A : Type 0} → (Error → Error) → Reply A → Reply A
map_error f (returned a) = returned a
map_error f (failed e) = failed (f e)
map_error f lost = lost

abbrev pub map_reply : {A B : Type 0} → (A → B) → Reply A → Reply B
map_reply f (returned a) = returned (f a)
map_reply f (failed e) = failed e
map_reply f lost = lost

-- `task.Status` of the protocol.
pub data TaskStatus : Type 0 where
  unknown created running stopped paused pausing : TaskStatus

-- `Status` of the shim, `StateResponse` of the protocol, and `runtime.State` without its status.
pub record Described : Type 0 where
  pub pid : ℕ
  pub stdin : ℕ
  pub stdout : ℕ
  pub stderr : ℕ
  pub terminal : Bool
  pub exit_status : ℕ
  pub exited_at : ℕ

pub record StateResponse : Type 0 where
  pub id : ℕ
  pub bundle : ℕ
  pub status : TaskStatus
  pub described : Described

-- `runtime.Status` of containerd; `no_status` is its zero value.
pub data RuntimeStatus : Type 0 where
  no_status created running stopped deleted paused pausing : RuntimeStatus

pub record State : Type 0 where
  pub status : RuntimeStatus
  pub described : Described

pub record ExecConfig : Type 0 where
  pub id : ℕ
  pub terminal : Bool
  pub stdin : ℕ
  pub stdout : ℕ
  pub stderr : ℕ
  pub spec : ℕ

pub record CheckpointOptions : Type 0 where
  pub exit : Bool
  pub open_tcp : Bool
  pub external_unix_sockets : Bool
  pub terminal : Bool
  pub file_locks : Bool
  pub empty_namespaces : List ℕ
  pub work_path : ℕ

-- The options of a request: what `typeurl.UnmarshalAny` makes of them.
pub data AnyOptions : Type 0 where
  options : CheckpointOptions → AnyOptions
  unreadable : Error → AnyOptions
  of_other_type : AnyOptions

pub record CheckpointConfig : Type 0 where
  pub path : ℕ
  pub exit : Bool
  pub allow_open_tcp : Bool
  pub allow_external_unix_sockets : Bool
  pub allow_terminal : Bool
  pub file_locks : Bool
  pub empty_namespaces : List ℕ
  pub work_dir : ℕ

pub record WaitResponse : Type 0 where
  pub exit_status : ℕ
  pub exited_at : ℕ

pub record ConnectResponse : Type 0 where
  pub shim_pid : ℕ
  pub task_pid : ℕ

-- `ShimService`, on a state of the shim.
pub record ShimService (S : Type 0) : Type 0 where
  pub start : S → (exec_id : ℕ) → S × Reply ℕ
  pub delete : S → (exec_id : ℕ) → S × Reply Exit
  pub exec : S → ExecConfig → S × Reply (Unit {0})
  pub resize_pty : S → (exec_id width height : ℕ) → S × Reply (Unit {0})
  pub state : S → (exec_id : ℕ) → S × Reply StateResponse
  pub kill : S → (exec_id sig : ℕ) → (all : Bool) → S × Reply (Unit {0})
  pub pids : S → S × Reply (List (ℕ × Option ℕ))
  pub close_io : S → (exec_id : ℕ) → S × Reply (Unit {0})
  pub checkpoint : S → CheckpointConfig → S × Reply (Unit {0})
  pub update : S → (resources : ℕ) → S × Reply (Unit {0})
  pub wait : S → (exec_id : ℕ) → S × Reply WaitResponse
  pub connect : S → S × Reply ConnectResponse
  pub shutdown : S → S × Reply (Unit {0})
  pub stats : S → S × Reply ℕ

-- The requests that have more than an id and an exec id.
pub record Target : Type 0 where
  pub id : ℕ
  pub exec_id : ℕ

pub record ExecRequest : Type 0 where
  pub id : ℕ
  pub exec_id : ℕ
  pub terminal : Bool
  pub stdin : ℕ
  pub stdout : ℕ
  pub stderr : ℕ
  pub spec : ℕ

pub record ResizeRequest : Type 0 where
  pub target : Target
  pub width : ℕ
  pub height : ℕ

pub record KillRequest : Type 0 where
  pub target : Target
  pub signal : ℕ
  pub all : Bool

pub record CloseRequest : Type 0 where
  pub target : Target
  pub stdin : Bool

pub record CheckpointRequest : Type 0 where
  pub id : ℕ
  pub path : ℕ
  pub options : Option AnyOptions

pub record UpdateRequest : Type 0 where
  pub id : ℕ
  pub resources : ℕ

-- `TaskService` of the protocol, as the client sees it.
pub record TaskService (S : Type 0) : Type 0 where
  pub start : S → Target → S × Reply ℕ
  pub delete : S → Target → S × Reply Exit
  pub exec : S → ExecRequest → S × Reply (Unit {0})
  pub resize_pty : S → ResizeRequest → S × Reply (Unit {0})
  pub state : S → Target → S × Reply StateResponse
  pub kill : S → KillRequest → S × Reply (Unit {0})
  pub pids : S → (id : ℕ) → S × Reply (List (ℕ × Option ℕ))
  pub close_io : S → CloseRequest → S × Reply (Unit {0})
  pub checkpoint : S → CheckpointRequest → S × Reply (Unit {0})
  pub update : S → UpdateRequest → S × Reply (Unit {0})
  pub wait : S → Target → S × Reply WaitResponse
  pub connect : S → (id : ℕ) → S × Reply ConnectResponse
  pub shutdown : S → (id : ℕ) → S × Reply (Unit {0})
  pub stats : S → (id : ℕ) → S × Reply ℕ
  pub create : S → (id : ℕ) → S × Reply (Unit {0})
  pub pause : S → (id : ℕ) → S × Reply (Unit {0})
  pub resume : S → (id : ℕ) → S × Reply (Unit {0})
