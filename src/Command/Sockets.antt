-- ===== src/Command/Sockets.antt =====
-- What `initSocket` and `startNewProcess` leave behind.
use systemd_runtime.Common.{
  ℕ, [], ◌∷◌, none, some, Bool, true, false, not, ◌&&◌, ◌||◌, is_some, ◌≡◌, arith,
}
use systemd_runtime.Command.Socket.{
  SocketWorld, NewSocket, made, in_use, not_made, init_socket, start_new_process, obtain,
  address_of, grouping,
}
use systemd_runtime.Common.Maps.{lookup}

abbrev is_made : NewSocket → Bool
is_made made = true
is_made in_use = false
is_made (not_made e) = false

abbrev is_in_use : NewSocket → Bool
is_in_use in_use = true
is_in_use made = false
is_in_use (not_made e) = false

-- Whether a socket is made: the address is known, and `newSocket` makes it at once, or at the second
-- call, if the address was in use by no one who answers and its file could be removed.
abbrev pub makes_socket : SocketWorld → Bool
makes_socket w =
    (not (is_some w.spec_err) && not (is_some w.address_err))
    && (is_made w.first
        || (is_in_use w.first
            && (not w.can_connect && (not (is_some w.remove_err) && is_made w.second))))

-- `initSocket`: if it succeeds, the address of the container's own id is the socket of the shim and was
-- written, and the shim has a listener exactly if a socket was made. If it fails, the shim has no
-- socket and nothing was written. On every return, a failed one too, the process holds an open socket
-- exactly if one was made: at the first call of `newSocket`, or at the second one if the address was
-- in use by no one who answers and its file could be removed. Once a socket is made, it fails exactly
-- if writing the address does, and the socket stays open then too.
pub init_socket_lem :
    (id : ℕ) (w : SocketWorld)
    → let (app, (s, err)) = init_socket (record { id = id; socket = none; listener = false }) w in
      (err ≡ none
        → (app.socket ≡ some (w.address id))
          × (s.written ≡ w.address id ∷ [])
          × (app.listener ≡ makes_socket w))
      × (is_some err ≡ true → (app.socket ≡ none) × (app.listener ≡ false) × (s.written ≡ []))
      × (s.listening ≡ makes_socket w)
      × (makes_socket w ≡ true → is_some err ≡ is_some w.write_err)
unfolding init_socket address_of obtain grouping lookup
init_socket_lem id w = ground arith

-- `startNewProcess`: if it fails, it holds no socket and no shim that it started runs. If it succeeds,
-- the address was written, and either it made the socket and started a shim, or neither.
start_new_process_lem :
    (id : ℕ) (w : SocketWorld)
    → let (s, err) = start_new_process id w in
      (is_some err ≡ true → (s.listening ≡ false) × (s.running ≡ false))
      × (err ≡ none → (s.written ≡ w.address id ∷ []) × (s.running ≡ s.listening))
unfolding start_new_process address_of obtain grouping lookup
start_new_process_lem id w = ground arith
