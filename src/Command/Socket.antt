-- ===== src/Command/Socket.antt =====
-- cmd/eru-systemd-shim/shim/shim.go: `initSocket`, and `startNewProcess` for the command "fork-start".
use systemd_runtime.Common.Maps.{lookup}
use systemd_runtime.Common.{ℕ, List, [], ◌∷◌, Option, none, some, Bool, true, false}

-- How `newSocket` ends; `in_use` is the error for which `SocketEaddrinuse` holds.
pub data NewSocket : Type 0 where
  made in_use : NewSocket
  not_made : (err : ℕ) → NewSocket

-- What both functions get from the system. `address` is that of the socket of a group.
pub record SocketWorld : Type 0 where
  pub command_err : Option ℕ
  pub spec_err : Option ℕ
  pub annotations : List (ℕ × ℕ)
  pub address_err : Option ℕ
  pub address : ℕ → ℕ
  pub first : NewSocket
  pub can_connect : Bool
  pub remove_err : Option ℕ
  pub second : NewSocket
  pub write_err : Option ℕ
  pub file_err : Option ℕ
  pub start_err : Option ℕ
  pub options_err : Option ℕ
  pub oom_err : Option ℕ

-- `socket` and `socketListener` of `App`.
pub record App : Type 0 where
  pub id : ℕ
  pub socket : Option ℕ
  pub listener : Bool

-- Whether this process holds a socket that it made, what it wrote to the address file, and whether
-- the shim that it started runs.
pub record Effects : Type 0 where
  pub listening : Bool
  pub written : List ℕ
  pub running : Bool

abbrev pub no_effects : Effects
no_effects = record { listening = false; written = []; running = false }

-- `readSpec` decodes the file into another variable than the one that it returns.
abbrev pub read_spec : SocketWorld → List (ℕ × ℕ)
read_spec w = []

-- The two labels of `groupLabels`, and the loop over them.
abbrev pub group_labels : List ℕ
group_labels = 0 ∷ 1 ∷ []

unfoldable pub grouping : List ℕ → (annotations : List (ℕ × ℕ)) → (id : ℕ) → ℕ
unfolding lookup
grouping [] annotations id = id
grouping (label ∷ labels) annotations id = elim (lookup label annotations) [
  | some group ↦ group
  | none ↦ grouping labels annotations id
]

-- The address, or an error.
pub data Address : Type 0 where
  at_address : ℕ → Address
  no_address : (err : ℕ) → Address

unfoldable pub address_of : (id : ℕ) → SocketWorld → Address
unfolding grouping
address_of id w = elim w.spec_err [
  | some e ↦ no_address e
  | none ↦ elim w.address_err [
    | some e ↦ no_address e
    | none ↦ at_address (w.address (grouping group_labels (read_spec w) id))
  ]
]

-- How getting a socket ends: it is made, another shim serves it, or it fails.
pub data Obtained : Type 0 where
  new_socket served : Obtained
  failed : (err : ℕ) → Obtained

abbrev pub write_address : Effects → (address : ℕ) → Effects
write_address s address = record s { written = address ∷ s.written }

abbrev pub socket_made : Effects → Effects
socket_made s = record s { listening = true }

-- The part up to the deferred function.
abbrev pub second_socket : Effects → NewSocket → Effects × Obtained
second_socket s made = (socket_made s, new_socket)
second_socket s in_use = (s, failed 98)
second_socket s (not_made e) = (s, failed e)

abbrev pub other_socket : Effects → (address : ℕ) → SocketWorld → Effects × Obtained
other_socket s address w = elim w.can_connect [
  | true ↦ elim w.write_err [ some e ↦ (s, failed e) | none ↦ (write_address s address, served) ]
  | false ↦ elim w.remove_err [ some e ↦ (s, failed e) | none ↦ second_socket s w.second ]
]

unfoldable pub obtain : Effects → (address : ℕ) → SocketWorld → Effects × Obtained
obtain s address w = elim w.first [
  | made ↦ (socket_made s, new_socket)
  | not_made e ↦ (s, failed e)
  | in_use ↦ other_socket s address w
]

-- `initSocket` behind that part. Its deferred function tests a variable that nothing sets.
abbrev pub init_obtained :
    App → (address : ℕ) → SocketWorld → Effects × Obtained → App × (Effects × Option ℕ)
init_obtained app address w (s, failed e) = (app, (s, some e))
init_obtained app address w (s, served) = (record app { socket = some address }, (s, none))
init_obtained app address w (s, new_socket) = elim w.write_err [
  | some e ↦ (app, (s, some e))
  | none ↦ (record app { socket = some address; listener = true }, (write_address s address, none))
]

unfoldable pub init_socket : App → SocketWorld → App × (Effects × Option ℕ)
unfolding address_of obtain
init_socket app w = elim (address_of app.id w) [
  | no_address e ↦ (app, (no_effects, some e))
  | at_address a ↦ init_obtained app a w (obtain no_effects a w)
]

-- The deferred functions of `startNewProcess`.
abbrev pub or_close : Effects × Option ℕ → Effects × Option ℕ
or_close (s, some e) = (record s { listening = false }, some e)
or_close (s, none) = (s, none)

abbrev pub or_kill : Effects × Option ℕ → Effects × Option ℕ
or_kill (s, some e) = (record s { running = false }, some e)
or_kill (s, none) = (s, none)

-- `startNewProcess` behind `cmd.Start`; `options_err` is any error of reading and applying the options.
abbrev pub command_started : Effects → (address : ℕ) → SocketWorld → Effects × Option ℕ
command_started s address w = elim w.write_err [
  | some e ↦ (s, some e)
  | none ↦ elim w.options_err [
    | some e ↦ (write_address s address, some e)
    | none ↦ elim w.oom_err [
      | some e ↦ (write_address s address, some e)
      | none ↦ (write_address s address, none)
    ]
  ]
]

abbrev pub start_made : Effects → (address : ℕ) → SocketWorld → Effects × Option ℕ
start_made s address w = elim w.file_err [
  | some e ↦ (s, some e)
  | none ↦ elim w.start_err [
    | some e ↦ (s, some e)
    | none ↦ or_kill (command_started (record s { running = true }) address w)
  ]
]

abbrev pub start_obtained : (address : ℕ) → SocketWorld → Effects × Obtained → Effects × Option ℕ
start_obtained address w (s, failed e) = (s, some e)
start_obtained address w (s, served) = (s, none)
start_obtained address w (s, new_socket) = or_close (start_made s address w)

-- `startNewProcess`
unfoldable pub start_new_process : (id : ℕ) → SocketWorld → Effects × Option ℕ
unfolding address_of obtain
start_new_process id w = elim w.command_err [
  | some e ↦ (no_effects, some e)
  | none ↦ elim (address_of id w) [
    | no_address e ↦ (no_effects, some e)
    | at_address a ↦ start_obtained a w (obtain no_effects a w)
  ]
]
