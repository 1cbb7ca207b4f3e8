-- ===== src/Command/Fair.antt =====
-- The channels of the subscribers to a shim's signals.
use systemd_runtime.Common.{
  ℕ, zero, suc, ◌+◌, List, [], ◌∷◌, ◌++◌, none, some, Bool, true, false, ◌==◌, ltb, if◌then◌else◌,
  ◌≡◌, refl, ap, ◌∙◌, arith, inl, inr, Option-cases, Bool-cases,
}
use systemd_runtime.Command.{
  SignalPublisher, new_publisher, to_all, publish, subscribe, Signal, sigchld, sigpipe, sigterm,
  sigint, term, handle_signal,
}

-- How often a channel stands in a list, and how often it was sent to.
abbrev pub times : ℕ → List ℕ → ℕ
times ch [] = 0
times ch (c ∷ cs) = (if c == ch then 1 else 0) + times ch cs

-- The messages that were sent to a channel.
abbrev pub messages : ℕ → List (ℕ × ℕ) → List ℕ
messages ch [] = []
messages ch ((c, sig) ∷ ms) = if c == ch then sig ∷ messages ch ms else messages ch ms

abbrev pub copies : ℕ → ℕ → List ℕ
copies zero sig = []
copies (suc n) sig = sig ∷ copies n sig

-- Any order of signals and subscriptions.
pub data Event : Type 0 where
  gets : Signal → Event
  subscribes : Event

unfoldable pub happens : SignalPublisher × ℕ → List Event → SignalPublisher × ℕ
happens s [] = s
happens s (gets sig ∷ es) = happens (handle_signal s sig) es
happens (p, n) (subscribes ∷ es) = happens (subscribe p, n) es

times-append : (ch : ℕ) (xs ys : List ℕ) → times ch (xs ++ ys) ≡ times ch xs + times ch ys
times-append ch [] ys = omega arith
times-append ch (x ∷ xs) ys = omega (arith, times-append ch xs ys)

messages-append :
    (ch : ℕ) (xs ys : List (ℕ × ℕ)) → messages ch (xs ++ ys) ≡ messages ch xs ++ messages ch ys
messages-append ch [] ys = refl
messages-append ch ((c, sig) ∷ xs) ys = ground (arith, messages-append ch xs ys)

messages-to_all :
    (ch sig : ℕ) (cs : List ℕ) → messages ch (to_all sig cs) ≡ copies (times ch cs) sig
messages-to_all ch sig [] = refl
messages-to_all ch sig (c ∷ cs) = elim (Bool-cases (c == ch)) [
  | inl e ↦
      let more : suc (times ch cs) ≡ 1 + times ch cs = omega arith in
      rw e (ap (λ ms. sig ∷ ms) (messages-to_all ch sig cs) ∙ ap (λ n. copies n sig) more)
  | inr e ↦
      let none_more : times ch cs ≡ 0 + times ch cs = omega arith in
      rw e (messages-to_all ch sig cs ∙ ap (λ n. copies n sig) none_more)
]

copies-if : (b : Bool) (sig : ℕ) → copies (if b then 1 else 0) sig ≡ (if b then sig ∷ [] else [])
copies-if true sig = refl
copies-if false sig = refl

-- A channel waits once and has no message, or it has one message and does not wait.
pub record IsFair (p : SignalPublisher) : Type 0 where
  pub waits :
      p.signal ≡ none
      → (ch : ℕ)
      → (times ch p.subscribers ≡ (if ltb ch p.next then 1 else 0)) × (messages ch p.sent ≡ [])
  pub told :
      (g : ℕ)
      → p.signal ≡ some g
      → (ch : ℕ) → messages ch p.sent ≡ (if ltb ch p.next then g ∷ [] else [])

publish-IsFair : (p : SignalPublisher) (sig : ℕ) → IsFair p → IsFair (publish p sig)
unfolding publish
publish-IsFair p sig v = elim (Option-cases p.signal) [
  | inr (g, e) ↦ rw (e, publish) v
  | inl e ↦
      rw (e, publish)
        (record {
          waits = λ h. absurd (let no_case : ⊥ = cc in no_case);
          told = λ g h ch.
              let same : sig ≡ g = cc in
              messages-append ch p.sent (to_all sig p.subscribers)
              ∙ ap (λ ms. ms ++ messages ch (to_all sig p.subscribers)) (v.waits e ch).1
              ∙ messages-to_all ch sig p.subscribers
              ∙ ap (λ n. copies n sig) (v.waits e ch).0
              ∙ copies-if (ltb ch p.next) sig
              ∙ ap (λ x. if ltb ch p.next then x ∷ [] else []) same;
        })
]

next_below :
    (ch n : ℕ)
    → (if ltb ch n then 1 else 0) + ((if n == ch then 1 else 0) + 0)
      ≡ (if ltb ch (n + 1) then 1 else 0)
next_below ch n = ground arith

next_told :
    (ch n g : ℕ)
    → (if ltb ch n then g ∷ [] else []) ++ messages ch ((n, g) ∷ [])
      ≡ (if ltb ch (n + 1) then g ∷ [] else [])
next_told ch n g = ground arith

subscribe-IsFair : (p : SignalPublisher) → IsFair p → IsFair (subscribe p)
unfolding subscribe
subscribe-IsFair p v = elim (Option-cases p.signal) [
  | inr (s, e) ↦
      rw (e, subscribe)
        (record {
          waits = λ h. absurd (let no_case : ⊥ = cc in no_case);
          told = λ g h ch.
              let same : s ≡ g = cc in
              messages-append ch p.sent ((p.next, s) ∷ [])
              ∙ ap (λ ms. ms ++ messages ch ((p.next, s) ∷ [])) (v.told s e ch)
              ∙ next_told ch p.next s
              ∙ ap (λ x. if ltb ch (p.next + 1) then x ∷ [] else []) same;
        })
  | inl e ↦
      rw (e, subscribe)
        (record {
          waits = λ h ch. (
            times-append ch p.subscribers (p.next ∷ [])
                ∙ ap (λ n. n + times ch (p.next ∷ [])) (v.waits e ch).0
                ∙ next_below ch p.next,
            (v.waits e ch).1,
          );
          told = λ g h. absurd (let no_case : ⊥ = cc in no_case);
        })
]

pub new-IsFair : IsFair new_publisher
new-IsFair = record {
  waits = λ h ch. (ground arith, refl);
  told = λ g h. absurd (let no_case : ⊥ = cc in no_case);
}

handle-IsFair :
    (p : SignalPublisher) (n : ℕ) (sig : Signal) → IsFair p → IsFair (handle_signal (p, n) sig).0
unfolding handle_signal
handle-IsFair p n sigchld v = v
handle-IsFair p n sigpipe v = v
handle-IsFair p n sigterm v = publish-IsFair p term v
handle-IsFair p n sigint v = elim (Bool-cases (n + 1 == 3)) [
  | inl e ↦ rw e (publish-IsFair p term v)
  | inr e ↦ rw e v
]

pub happens-IsFair :
    (s : SignalPublisher × ℕ) (es : List Event) → IsFair s.0 → IsFair (happens s es).0
unfolding happens
happens-IsFair s [] v = v
happens-IsFair (p, n) (gets sig ∷ es) v =
    happens-IsFair (handle_signal (p, n) sig) es (handle-IsFair p n sig v)
happens-IsFair (p, n) (subscribes ∷ es) v =
    happens-IsFair (subscribe p, n) es (subscribe-IsFair p v)
