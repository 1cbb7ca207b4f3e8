-- ===== src/Command.antt =====
-- cmd/eru-systemd-shim/shim/shim.go: the signals of the shim's process, and the socket that it serves.
pub mod Fair
pub mod Signals
pub mod Socket
pub mod Sockets
mod Examples
use systemd_runtime.Common.{ℕ, ◌+◌, List, [], ◌∷◌, ◌++◌, Option, none, some, ◌==◌, if◌then◌else◌}

-- `signal` is that of `optionSignal`. A channel is a number below `next`; `sent` has what was sent, each
-- send followed by the close of the channel.
pub record SignalPublisher : Type 0 where
  pub signal : Option ℕ
  pub subscribers : List ℕ
  pub sent : List (ℕ × ℕ)
  pub next : ℕ

abbrev pub new_publisher : SignalPublisher
new_publisher = record { signal = none; subscribers = []; sent = []; next = 0 }

-- The loop of `Publish`.
abbrev pub to_all : (sig : ℕ) → List ℕ → List (ℕ × ℕ)
to_all sig [] = []
to_all sig (ch ∷ chs) = (ch, sig) ∷ to_all sig chs

-- `Publish`
unfoldable pub publish : SignalPublisher → ℕ → SignalPublisher
publish p sig = elim p.signal [
  | some g ↦ p
  | none ↦ record p {
    signal = some sig;
    subscribers = [];
    sent = p.sent ++ to_all sig p.subscribers;
  }
]

-- `Subscribe`, whose channel is the number `next`.
unfoldable pub subscribe : SignalPublisher → SignalPublisher
subscribe p = elim p.signal [
  | some g ↦ record p { sent = p.sent ++ ((p.next, g) ∷ []); next = p.next + 1 }
  | none ↦ record p { subscribers = p.subscribers ++ (p.next ∷ []); next = p.next + 1 }
]

-- The signals that `handleSignals` gets.
pub data Signal : Type 0 where
  sigchld sigpipe sigterm sigint : Signal

abbrev pub term : ℕ
term = 15

-- One round of the loop of `handleSignals`, with the count of SIGINT. The reaping of children is
-- not part of it.
unfoldable pub handle_signal : SignalPublisher × ℕ → Signal → SignalPublisher × ℕ
unfolding publish
handle_signal (p, count) sigchld = (p, count)
handle_signal (p, count) sigpipe = (p, count)
handle_signal (p, count) sigterm = (publish p term, count)
handle_signal (p, count) sigint = (if count + 1 == 3 then publish p term else p, count + 1)

-- The loop on a list of signals.
unfoldable pub handle_signals : SignalPublisher × ℕ → List Signal → SignalPublisher × ℕ
unfolding handle_signal
handle_signals s [] = s
handle_signals s (sig ∷ sigs) = handle_signals (handle_signal s sig) sigs
