-- ===== src/Conn/Deliver.antt =====
-- Who is told what by the manager of task/connection.go.
use mathlib.Core.List.{Memᴰ}
use systemd_runtime.Common.{
  ℕ, List, [], ◌∷◌, ◌++◌, Option, none, some, is_some, true, ◌≡◌, refl, sym, subst, Bool-cases,
  arith, inl, inr, Option-cases,
}
use systemd_runtime.Status.{Exit}
use systemd_runtime.Conn.{
  ConnMng, Service, ServiceSubscribe, found, lacks, task_is_killed, task_is_paused, by_service,
  subscribe, send_all, set_service, set_disabled, publish_to_all, cancel_conn_cancel,
  get_running_service,
}

mem_add :
    {p : ℕ × ServiceSubscribe} (q : ℕ × ServiceSubscribe) (l : List (ℕ × ServiceSubscribe))
    → Memᴰ p l
    → Memᴰ p (l ++ (q ∷ []))
mem_add q [] m = elim m [ ]
mem_add q (x ∷ l) (Memᴰ.head e) = Memᴰ.head e
mem_add q (x ∷ l) (Memᴰ.tail m) = Memᴰ.tail (mem_add q l m)

mem_last : (q : ℕ × ServiceSubscribe) (l : List (ℕ × ServiceSubscribe)) → Memᴰ q (l ++ (q ∷ []))
mem_last q [] = Memᴰ.head refl
mem_last q (x ∷ l) = Memᴰ.tail (mem_last q l)

mem_send_all_old :
    {p : ℕ × ServiceSubscribe} (sent : List (ℕ × ServiceSubscribe)) (sub : ServiceSubscribe)
    (chs : List ℕ)
    → Memᴰ p sent
    → Memᴰ p (send_all sent sub chs)
unfolding send_all
mem_send_all_old sent sub [] m = m
mem_send_all_old sent sub (c ∷ chs) m =
    mem_send_all_old (sent ++ ((c, sub) ∷ [])) sub chs (mem_add (c, sub) sent m)

mem_send_all :
    (ch : ℕ) (sent : List (ℕ × ServiceSubscribe)) (sub : ServiceSubscribe) (chs : List ℕ)
    → Memᴰ ch chs
    → Memᴰ (ch, sub) (send_all sent sub chs)
unfolding send_all
mem_send_all ch sent sub [] m = elim m [ ]
mem_send_all ch sent sub (c ∷ chs) (Memᴰ.head e) =
    mem_send_all_old (sent ++ ((c, sub) ∷ [])) sub chs
      (subst (λ x. Memᴰ (x, sub) (sent ++ ((c, sub) ∷ []))) (sym e) (mem_last (c, sub) sent))
mem_send_all ch sent sub (c ∷ chs) (Memᴰ.tail m) =
    mem_send_all ch (sent ++ ((c, sub) ∷ [])) sub chs m

-- `setService` tells every waiting channel the service, and `Disabled` tells it the exit; no channel
-- is left waiting, and `setService` keeps what was sent before. After `Disabled` with an exit a running service
-- is refused with `ErrTaskIsKilled`.
pub waiting_told :
    (s : ConnMng) (se : Service) (exit : Option Exit)
    → ((ch : ℕ) → Memᴰ ch s.subscribers → Memᴰ (ch, by_service se) (set_service s se).sent)
      × ((ch : ℕ)
          → Memᴰ ch s.subscribers
          → Memᴰ (ch, record { service = none; exit = exit }) (set_disabled s exit).sent)
      × ((p : ℕ × ServiceSubscribe) → Memᴰ p s.sent → Memᴰ p (set_service s se).sent)
      × ((set_service s se).subscribers ≡ [])
      × ((set_disabled s exit).subscribers ≡ [])
      × (is_some exit ≡ true → get_running_service (set_disabled s exit) ≡ lacks task_is_killed)
unfolding set_service set_disabled publish_to_all get_running_service cancel_conn_cancel
waiting_told s se exit = (
  λ ch m. mem_send_all ch s.sent (by_service se) s.subscribers m,
  λ ch m. elim (Bool-cases s.cancel_set) [
    | inl e ↦
        simp e (mem_send_all ch s.sent (record { service = none; exit = exit }) s.subscribers m)
    | inr e ↦
        simp e (mem_send_all ch s.sent (record { service = none; exit = exit }) s.subscribers m)
  ],
  λ p m. mem_send_all_old s.sent (by_service se) s.subscribers m,
  refl,
  refl,
  λ e. ground arith,
)

-- What `subscribe` does with the new channel agrees with `getRunningService`: with a service it is sent
-- at once; if the task is killed its exit is sent at once; if the task is paused the channel waits
-- behind the others, and nothing is sent.
subscribe_agrees :
    (s : ConnMng)
    → let (s', ch) = subscribe s in
      ((se : Service) → get_running_service s ≡ found se → Memᴰ (ch, by_service se) s'.sent)
      × (get_running_service s ≡ lacks task_is_killed
          → (e : Exit) × Memᴰ (ch, record { service = none; exit = some e }) s'.sent)
      × (get_running_service s ≡ lacks task_is_paused
          → (s'.subscribers ≡ s.subscribers ++ (ch ∷ [])) × (s'.sent ≡ s.sent))
unfolding subscribe get_running_service
subscribe_agrees s = elim (Option-cases s.last_subscribe.service) [
  | inr (se, e) ↦
      rw (e, subscribe, get_running_service)
        (
          λ se' q.
              subst
                (λ x.
                  Memᴰ (s.next_channel, by_service x)
                    (s.sent ++ ((s.next_channel, by_service se) ∷ [])))
                (cc) (mem_last (s.next_channel, by_service se) s.sent),
          λ q. let no_case : ⊥ = cc in absurd no_case,
          λ q. let no_case : ⊥ = cc in absurd no_case,
        )
  | inl e ↦ elim (Option-cases s.last_subscribe.exit) [
    | inr (x, e2) ↦
        rw (e, e2, subscribe, get_running_service)
          (
            λ se q. let no_case : ⊥ = cc in absurd no_case,
            λ q. (x, mem_last (s.next_channel, record { service = none; exit = some x }) s.sent),
            λ q. let no_case : ⊥ = cc in absurd no_case,
          )
    | inl e2 ↦
        rw (e, e2, subscribe, get_running_service)
          (
            λ se q. let no_case : ⊥ = cc in absurd no_case,
            λ q. let no_case : ⊥ = cc in absurd no_case,
            λ q. (refl, refl),
          )
  ]
]
