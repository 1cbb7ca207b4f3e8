-- ===== src/Command/Signals.antt =====
-- What the subscribers of a shim's signals are told, and which signals end a shim.
use systemd_runtime.Common.{
  ℕ, ◌+◌, ◌≤◌, List, [], ◌∷◌, Option, none, some, Bool, true, false, ◌||◌, ◌==◌, ltb, if◌then◌else◌,
  ◌≡◌, refl, ap, ◌∙◌, arith, inl, inr, Bool-cases,
}
use systemd_runtime.Command.{
  SignalPublisher, new_publisher, publish, subscribe, Signal, sigchld, sigpipe, sigterm, sigint,
  term, handle_signal,
}
use systemd_runtime.Command.Fair.{
  Event, gets, subscribes, happens, messages, IsFair, new-IsFair, happens-IsFair,
}

-- Whether the signals so far end the shim, given the number of SIGINT before: a SIGTERM, or the third SIGINT.
unfoldable pub ends : (count : ℕ) → List Event → Bool
ends count [] = false
ends count (gets sigterm ∷ es) = true
ends count (gets sigint ∷ es) = count == 2 || ends (count + 1) es
ends count (gets sigchld ∷ es) = ends count es
ends count (gets sigpipe ∷ es) = ends count es
ends count (subscribes ∷ es) = ends count es

publish_signal : (p : SignalPublisher) → p.signal ≡ none → (publish p term).signal ≡ some term
unfolding publish
publish_signal p h = ground arith

publish_kept : (p : SignalPublisher) (g : ℕ) → p.signal ≡ some g → (publish p term).signal ≡ some g
unfolding publish
publish_kept p g h = ground arith

subscribe_signal : (p : SignalPublisher) → (subscribe p).signal ≡ p.signal
unfolding subscribe
subscribe_signal p = ground arith

handle_kept :
    (p : SignalPublisher) (n g : ℕ) (sig : Signal)
    → p.signal ≡ some g
    → (handle_signal (p, n) sig).0.signal ≡ some g
unfolding handle_signal
handle_kept p n g sigchld h = h
handle_kept p n g sigpipe h = h
handle_kept p n g sigterm h = publish_kept p g h
handle_kept p n g sigint h = ground (arith, publish_kept p g h)

happens_kept :
    (s : SignalPublisher × ℕ) (g : ℕ) (es : List Event)
    → s.0.signal ≡ some g
    → (happens s es).0.signal ≡ some g
unfolding happens
happens_kept s g [] h = h
happens_kept (p, n) g (gets sig ∷ es) h =
    happens_kept (handle_signal (p, n) sig) g es (handle_kept p n g sig h)
happens_kept (p, n) g (subscribes ∷ es) h =
    happens_kept (subscribe p, n) g es (subscribe_signal p ∙ h)

happens_signal :
    (s : SignalPublisher × ℕ) (es : List Event)
    → s.0.signal ≡ none
    → s.1 ≤ 2
    → (happens s es).0.signal ≡ (if ends s.1 es then some term else none)
unfolding happens handle_signal ends
happens_signal (p, n) [] h c = h
happens_signal (p, n) (gets sigterm ∷ es) h c =
    happens_kept (publish p term, n) term es (publish_signal p h)
happens_signal (p, n) (gets sigint ∷ es) h c = elim (Bool-cases (n == 2)) [
  | inl e ↦
      let third : (n + 1 == 3) ≡ true = ground arith in
      rw (third, e) (happens_kept (publish p term, n + 1) term es (publish_signal p h))
  | inr e ↦
      let third : (n + 1 == 3) ≡ false = ground arith in
      rw (third, e) (happens_signal (p, n + 1) es h (ground arith))
]
happens_signal (p, n) (gets sigchld ∷ es) h c = happens_signal (p, n) es h c
happens_signal (p, n) (gets sigpipe ∷ es) h c = happens_signal (p, n) es h c
happens_signal (p, n) (subscribes ∷ es) h c =
    happens_signal (subscribe p, n) es (subscribe_signal p ∙ h) c

told_if :
    (b : Bool)
    → (elim (if b then some term else none) [ some g ↦ g ∷ [] | none ↦ [] ])
      ≡ (if b then term ∷ [] else [])
told_if true = refl
told_if false = refl

told_lem :
    (p : SignalPublisher) (o : Option ℕ) (ch : ℕ)
    → IsFair p
    → p.signal ≡ o
    → ltb ch p.next ≡ true
    → messages ch p.sent ≡ (elim o [ some g ↦ g ∷ [] | none ↦ [] ])
told_lem p none ch v h b = (v.waits h ch).1
told_lem p (some g) ch v h b = v.told g h ch ∙ ap (λ x. if x then g ∷ [] else []) b

-- In any order of signals and subscriptions: a channel that `Subscribe` returned has got exactly one
-- message, SIGTERM, if there was a SIGTERM or a third SIGINT, before or after the subscription; else
-- it has got none.
pub told_once :
    (es : List Event) (ch : ℕ)
    → let p = (happens (new_publisher, 0) es).0 in
      ltb ch p.next ≡ true → messages ch p.sent ≡ (if ends 0 es then term ∷ [] else [])
told_once es ch b =
    let p = (happens (new_publisher, 0) es).0 in
    told_lem p (if ends 0 es then some term else none) ch
      (happens-IsFair (new_publisher, 0) es new-IsFair)
      (happens_signal (new_publisher, 0) es refl (omega arith)) b
    ∙ told_if (ends 0 es)
