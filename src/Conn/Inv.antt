-- ===== src/Conn/Inv.antt =====
-- No channel of task/connection.go is sent to twice (which would panic, as it is closed), and none
-- is left waiting when the service or the exit is known.
use mathlib.Core.List.{append_assoc, append-nil, map-append}
use systemd_runtime.Common.{
  ℕ, suc, ◌+◌, ◌<◌, List, [], ◌∷◌, ◌++◌, map, Option, none, some, Bool, true, false, is_some, ◌≡◌,
  ◌≢◌, refl, sym, ap, ◌∙◌, arith, ◌⊎◌, Option-cases, inl, inr, Bool-cases,
}
use systemd_runtime.Status.{Exit}
use systemd_runtime.Conn.{
  ConnMng, Service, ServiceSubscribe, by_service, new_conn_mng, subscribe, send_all, set_disabled,
  set_service, reset, cancel_conn_cancel, publish_to_all,
}

-- The channels that were sent to, and behind them those that wait.
abbrev pub channels : ConnMng → List ℕ
channels s = map (λ p. p.0) s.sent ++ s.subscribers

abbrev pub AllBelow : ℕ → List ℕ → Type 0
AllBelow n [] = Unit
AllBelow n (x ∷ xs) = (x < n) × AllBelow n xs

abbrev pub Absent : ℕ → List ℕ → Type 0
Absent n [] = Unit
Absent n (x ∷ xs) = (n ≢ x) × Absent n xs

abbrev pub Distinct : List ℕ → Type 0
Distinct [] = Unit
Distinct (x ∷ xs) = Absent x xs × Distinct xs

pub record IsValid (s : ConnMng) : Type 0 where
  pub fresh : AllBelow s.next_channel (channels s)
  pub distinct : Distinct (channels s)
  pub one_of : (s.last_subscribe.service ≡ none) ⊎ (s.last_subscribe.exit ≡ none)
  pub told :
      (is_some s.last_subscribe.service ≡ true) ⊎ (is_some s.last_subscribe.exit ≡ true)
      → s.subscribers ≡ []

AllBelow-suc : (n : ℕ) (xs : List ℕ) → AllBelow n xs → AllBelow (suc n) xs
AllBelow-suc n [] h = tt
AllBelow-suc n (x ∷ xs) h = (omega arith, AllBelow-suc n xs h.1)

AllBelow-add : (n : ℕ) (xs : List ℕ) → AllBelow n xs → AllBelow (suc n) (xs ++ (n ∷ []))
AllBelow-add n [] h = (omega arith, tt)
AllBelow-add n (x ∷ xs) h = (omega arith, AllBelow-add n xs h.1)

Absent-add : (n x : ℕ) (xs : List ℕ) → x ≢ n → Absent x xs → Absent x (xs ++ (n ∷ []))
Absent-add n x [] ne h = (ne, tt)
Absent-add n x (y ∷ xs) ne h = (h.0, Absent-add n x xs ne h.1)

Distinct-add : (n : ℕ) (xs : List ℕ) → AllBelow n xs → Distinct xs → Distinct (xs ++ (n ∷ []))
Distinct-add n [] b d = (tt, tt)
Distinct-add n (x ∷ xs) b d = (Absent-add n x xs (omega arith) d.0, Distinct-add n xs b.1 d.1)

-- Sending to the waiting channels moves them over.
channels-send_all :
    (sent : List (ℕ × ServiceSubscribe)) (sub : ServiceSubscribe) (chs : List ℕ)
    → map (λ p. p.0) (send_all sent sub chs) ≡ map (λ p. p.0) sent ++ chs
unfolding send_all
channels-send_all sent sub [] = sym (append-nil (map (λ p. p.0) sent))
channels-send_all sent sub (ch ∷ chs) =
    channels-send_all (sent ++ ((ch, sub) ∷ [])) sub chs
    ∙ ap (λ l. l ++ chs) (map-append (λ p. p.0) sent ((ch, sub) ∷ []))
    ∙ append_assoc (map (λ p. p.0) sent) (ch ∷ []) chs

pub new-IsValid : IsValid new_conn_mng
unfolding new_conn_mng
new-IsValid = record { fresh = tt; distinct = tt; one_of = inl refl; told = λ h. refl }

-- The channels after the fresh one is added behind the others.
fresh-add :
    (s : ConnMng) (l : List ℕ)
    → l ≡ channels s ++ (s.next_channel ∷ [])
    → IsValid s
    → AllBelow (suc s.next_channel) l × Distinct l
fresh-add s l e v = rw e (
  AllBelow-add s.next_channel (channels s) v.fresh,
  Distinct-add s.next_channel (channels s) v.fresh v.distinct,
)

sent_fresh :
    (s : ConnMng) (sub : ServiceSubscribe)
    → s.subscribers ≡ []
    → map (λ p. p.0) (s.sent ++ ((s.next_channel, sub) ∷ [])) ++ s.subscribers
      ≡ channels s ++ (s.next_channel ∷ [])
sent_fresh s sub e =
    ap (λ l. map (λ p. p.0) (s.sent ++ ((s.next_channel, sub) ∷ [])) ++ l) e
    ∙ append-nil _
    ∙ map-append (λ p. p.0) s.sent ((s.next_channel, sub) ∷ [])
    ∙ ap (λ l. l ++ (s.next_channel ∷ []))
        (sym (append-nil (map (λ p. p.0) s.sent)) ∙ ap (λ l. map (λ p. p.0) s.sent ++ l) (sym e))

-- A channel that is answered at once.
answered :
    (s : ConnMng) (sub : ServiceSubscribe)
    → IsValid s
    → (is_some s.last_subscribe.service ≡ true) ⊎ (is_some s.last_subscribe.exit ≡ true)
    → IsValid (record s {
      sent = s.sent ++ ((s.next_channel, sub) ∷ []);
      next_channel = suc s.next_channel;
    })
answered s sub v known =
    let (f, d) = fresh-add s _ (sent_fresh s sub (v.told known)) v in
    record { fresh = f; distinct = d; one_of = v.one_of; told = v.told }

-- A channel that waits: nothing is known.
waits :
    (s : ConnMng)
    → IsValid s
    → s.last_subscribe.service ≡ none
    → s.last_subscribe.exit ≡ none
    → IsValid (record s {
      subscribers = s.subscribers ++ (s.next_channel ∷ []);
      next_channel = suc s.next_channel;
    })
waits s v e1 e2 =
    let (f, d) =
      fresh-add s _ (sym (append_assoc (map (λ p. p.0) s.sent) s.subscribers (s.next_channel ∷ [])))
        v in
    record { fresh = f; distinct = d; one_of = v.one_of; told = λ h. ground arith }

-- `subscribe` keeps the invariant.
pub subscribe-IsValid : (s : ConnMng) → IsValid s → IsValid (subscribe s).0
unfolding subscribe
subscribe-IsValid s v = elim (Option-cases s.last_subscribe.service) [
  | inr (se, e) ↦ rw (e, subscribe) (answered s (by_service se) v (inl (ap is_some e)))
  | inl e ↦ elim (Option-cases s.last_subscribe.exit) [
    | inr (x, e2) ↦
        rw (e, e2, subscribe)
          (answered s (record { service = none; exit = some x }) v (inr (ap is_some e2)))
    | inl e2 ↦ rw (e, e2, subscribe) (waits s v e e2)
  ]
]

publish-IsValid :
    (s : ConnMng) (sub : ServiceSubscribe)
    → (sub.service ≡ none) ⊎ (sub.exit ≡ none)
    → IsValid s
    → IsValid (publish_to_all s sub)
unfolding publish_to_all
publish-IsValid s sub one v = record {
  fresh = rw kept v.fresh;
  distinct = rw kept v.distinct;
  one_of = one;
  told = λ h. refl;
}
  where
    kept : map (λ p. p.0) (send_all s.sent sub s.subscribers) ++ [] ≡ channels s
    kept = append-nil _ ∙ channels-send_all s.sent sub s.subscribers

-- `setService` keeps the invariant.
pub set_service-IsValid : (s : ConnMng) (se : Service) → IsValid s → IsValid (set_service s se)
unfolding set_service
set_service-IsValid s se v = publish-IsValid s (by_service se) (inr refl) v

-- What the invariant does not read may change.
pub keeps-IsValid :
    (s : ConnMng) (set disabled : Bool) (n : ℕ)
    → IsValid s
    → IsValid (record s { cancel_set = set; cancels = n; disabled = disabled })
keeps-IsValid s set disabled n v = record {
  fresh = v.fresh;
  distinct = v.distinct;
  one_of = v.one_of;
  told = v.told;
}

pub cancel-IsValid : (s : ConnMng) → IsValid s → IsValid (cancel_conn_cancel s)
unfolding cancel_conn_cancel
cancel-IsValid s v = elim (Bool-cases s.cancel_set) [
  | inl e ↦ simp e (keeps-IsValid s false s.disabled (s.cancels + 1) v)
  | inr e ↦ simp e v
]

-- `Disabled` keeps the invariant.
pub set_disabled-IsValid :
    (s : ConnMng) (exit : Option Exit) → IsValid s → IsValid (set_disabled s exit)
unfolding set_disabled
set_disabled-IsValid s exit v =
    publish-IsValid (record (cancel_conn_cancel s) { disabled = true })
      (record { service = none; exit = exit }) (inl refl)
      (keeps-IsValid c c.cancel_set true c.cancels (cancel-IsValid s v))
  where
    c : ConnMng
    c = cancel_conn_cancel s

-- `reset` keeps the invariant.
pub reset-IsValid : (s : ConnMng) → IsValid s → IsValid (reset s)
unfolding reset
reset-IsValid s v = record {
  fresh = v.fresh;
  distinct = v.distinct;
  one_of = inl refl;
  told = λ h. ground arith;
}
