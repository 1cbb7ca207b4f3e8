-- ===== src/Flock/Wait.antt =====
-- When the loop of `FileLock` in utils/flock.go ends.
use systemd_runtime.Common.{
  ℕ, List, [], ◌∷◌, ◌++◌, some, none, true, false, ◌≡◌, ◌⊎◌, inl, inr, ◌∙◌,
}
use systemd_runtime.Flock.{
  eagain, eacces, errno, Try, acquired, failed, file_lock, context_done, os_error,
}

-- A round in which another process has the lock and the context is not done.
abbrev pub IsBusy : Try → Type 0
IsBusy t = ((t.answer ≡ some eagain) ⊎ (t.answer ≡ some eacces)) × (t.done ≡ false)

abbrev pub AllBusy : List Try → Type 0
AllBusy [] = Unit
AllBusy (t ∷ ts) = IsBusy t × AllBusy ts

-- After rounds in which the lock is busy, `FileLock` ends as its next round does: with the lock if
-- the kernel gives it, with the kernel's error, or with the context's error once that is done.
file_lock-append :
    (busy : List Try) (t : Try) (rest : List Try)
    → AllBusy busy
    → (t.answer ≡ none → file_lock (busy ++ (t ∷ rest)) ≡ acquired)
      × ((e : ℕ) → t.answer ≡ some (errno e) → file_lock (busy ++ (t ∷ rest)) ≡ failed (os_error e))
      × (t.answer ≡ some eagain
          → t.done ≡ true
          → file_lock (busy ++ (t ∷ rest)) ≡ failed context_done)
unfolding file_lock
file_lock-append [] t rest b = (λ e. rw e, λ n e. rw e, λ e d. rw (e, d))
file_lock-append (s ∷ busy) t rest (b, bs) =
    let (x, y, z) = file_lock-append busy t rest bs in
    let skip : file_lock (s ∷ (busy ++ (t ∷ rest))) ≡ file_lock (busy ++ (t ∷ rest)) = elim (b.0) [
      | inl e ↦ rw (e, b.1)
      | inr e ↦ rw (e, b.1)
    ] in
    (λ e. skip ∙ x e, λ n e. skip ∙ y n e, λ e d. skip ∙ z e d)
