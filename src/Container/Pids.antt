-- ===== src/Container/Pids.antt =====
-- `HasPid` of runc/container.go, which asks the init process first and then all processes.
use mathlib.Core.List.{Memᴰ}
use systemd_runtime.Common.{
  ℕ, List, [], ◌∷◌, ◌++◌, true, ◌==◌, ==→eq, ◌≡◌, refl, ap, arith, inl, inr, Bool-cases,
}
use systemd_runtime.Container.{
  Container, Process, init_process, pid_of, any_pid, has_pid, all, execd_processes, pid,
}

any_pid_sound :
    (n : ℕ) (ps : List Process) → any_pid n ps ≡ true → (p : Process) × Memᴰ p ps × (pid_of p ≡ n)
unfolding any_pid
any_pid_sound n [] h = absurd (let no_case : ⊥ = cc in no_case)
any_pid_sound n (p ∷ ps) h = elim (Bool-cases (pid_of p == n)) [
  | inl e ↦ (p, Memᴰ.head refl, ==→eq (pid_of p) n e)
  | inr e ↦ let (q, m, k) = any_pid_sound n ps (ground arith) in (q, Memᴰ.tail m, k)
]

any_pid_complete :
    (n : ℕ) (ps : List Process) (p : Process) → Memᴰ p ps → pid_of p ≡ n → any_pid n ps ≡ true
unfolding any_pid
any_pid_complete n [] p m k = elim m [ ]
any_pid_complete n (q ∷ ps) p (Memᴰ.head e) k = ground (arith, ap pid_of e)
any_pid_complete n (q ∷ ps) p (Memᴰ.tail m) k = ground (arith, any_pid_complete n ps p m k)

mem_last : (p : Process) (ps : List Process) → Memᴰ p (ps ++ (p ∷ []))
mem_last p [] = Memᴰ.head refl
mem_last p (q ∷ ps) = Memᴰ.tail (mem_last p ps)

-- `HasPid` says yes exactly if one of the processes of `All` has the pid.
has_pid-all :
    (c : Container) (n : ℕ)
    → (has_pid c n ≡ true → (p : Process) × Memᴰ p (all c) × (pid_of p ≡ n))
      × ((p : Process) → Memᴰ p (all c) → pid_of p ≡ n → has_pid c n ≡ true)
unfolding has_pid
has_pid-all c n = (
  λ h. elim (Bool-cases (pid c == n)) [
    | inl e ↦ (
      init_process c.process,
      unfold all in mem_last (init_process c.process) (execd_processes c),
      unfold pid in ==→eq (pid c) n e,
    )
    | inr e ↦ any_pid_sound n (all c) (ground arith)
  ],
  λ p m k. ground (arith, any_pid_complete n (all c) p m k),
)
