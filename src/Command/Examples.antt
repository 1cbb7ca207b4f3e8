-- ===== src/Command/Examples.antt =====
-- Runs of the shim's command.
use systemd_runtime.Common.{◌+◌, List, [], ◌∷◌, none, some, true, false, ◌≡◌, refl, is_some, ltb}
use systemd_runtime.Command.{
  new_publisher, sigchld, sigint, term, publish, subscribe, handle_signal,
}
use systemd_runtime.Command.Fair.{Event, gets, subscribes, happens, messages}
use systemd_runtime.Command.Signals.{ends, told_once}
use systemd_runtime.Command.Socket.{SocketWorld, in_use, made, init_socket}
use systemd_runtime.Command.Sockets.{init_socket_lem}

-- A channel, two SIGINT, another channel, a third SIGINT.
abbrev events : List Event
events = subscribes ∷ gets sigint ∷ gets sigchld ∷ gets sigint ∷ subscribes ∷ gets sigint ∷ []

two_channels : ltb 1 (happens (new_publisher, 0) events).0.next ≡ true
unfolding happens handle_signal publish subscribe
two_channels = refl

told_once_example : messages 1 (happens (new_publisher, 0) events).0.sent ≡ term ∷ []
unfolding ends
told_once_example = told_once events 1 two_channels

-- An old socket is in the way, and the address cannot be written.
abbrev unwritable : SocketWorld
unwritable = record {
  command_err = none;
  spec_err = none;
  annotations = (0, 9) ∷ [];
  address_err = none;
  address = λ n. n + 100;
  first = in_use;
  can_connect = false;
  remove_err = none;
  second = made;
  write_err = some 28;
  file_err = none;
  start_err = none;
  options_err = none;
  oom_err = none;
}

init_socket_lem_example :
    let (app, (s, err)) =
      init_socket (record { id = 5; socket = none; listener = false }) unwritable in
    (err ≡ none → (app.socket ≡ some 105) × (s.written ≡ 105 ∷ []) × (app.listener ≡ true))
    × (is_some err ≡ true → (app.socket ≡ none) × (app.listener ≡ false) × (s.written ≡ []))
    × (s.listening ≡ true)
    × (true ≡ true → is_some err ≡ true)
init_socket_lem_example = init_socket_lem 5 unwritable
