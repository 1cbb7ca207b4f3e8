-- ===== src/Streams/Fifos.antt =====
-- The search for a fifo of tasklog/utils.go, and the handles of tasklog/handle.go.
use systemd_runtime.Common.{
  ℕ, zero, suc, ◌≤◌, none, some, true, false, ◌≡◌, ◌<◌, ◌⊎◌, inl, inr, refl, arith, Bool, Option,
  subst, sym, ◌∙◌, if◌then◌else◌,
}
use native.Mathlib.Decide.{dec_lt}
use systemd_runtime.Streams.{
  Round, Stat, FileError, is_not_exist, already_closed, errno, named_pipe, other_file, stat_failed,
  exist, not_exist, mk_fifo, check_from, is_fifo, after_mk, check_or_create_fifo,
}
use systemd_runtime.Streams.Handle.{
  Calls, Handle, HandleError, Reopen, made, refused, get_or_create_handle, close, open_fifo,
  is_fifo_mode,
}

-- In the round `k` there is no file, but one when it is to be made.
abbrev pub Loses : Round → Type 0
Loses r = (r.stat ≡ stat_failed not_exist) × (mk_fifo r.mkdir_err r.mkfifo_err ≡ some exist)

-- The rounds from `r` down to, and without, that with `retry` `k`.
abbrev pub LosesTo : (ℕ → Round) → (r k : ℕ) → Type 0
LosesTo rounds r k = (j : ℕ) → k < j → j ≤ r → Loses (rounds j)

-- The round with `retry` `k` finds a fifo or makes one; that with 0 makes none.
abbrev pub Gets : (ℕ → Round) → ℕ → Type 0
Gets rounds k =
    ((rounds k).stat ≡ named_pipe)
    ⊎ ((0 < k)
        × ((rounds k).stat ≡ stat_failed not_exist)
        × (mk_fifo (rounds k).mkdir_err (rounds k).mkfifo_err ≡ none))

-- `false` without an error: another file is there, or all rounds find none.
abbrev pub Misses : (ℕ → Round) → ℕ → Type 0
Misses rounds k =
    ((rounds k).stat ≡ other_file) ⊎ ((k ≡ 0) × ((rounds 0).stat ≡ stat_failed not_exist))

stat_cases :
    (s : Stat)
    → (s ≡ named_pipe)
      ⊎ ((s ≡ other_file)
          ⊎ ((s ≡ stat_failed not_exist)
              ⊎ ((e : FileError) × (s ≡ stat_failed e) × (is_not_exist (some e) ≡ false))))
stat_cases named_pipe = inl refl
stat_cases other_file = inr (inl refl)
stat_cases (stat_failed not_exist) = inr (inr (inl refl))
stat_cases (stat_failed exist) = inr (inr (inr (exist, refl, refl)))
stat_cases (stat_failed already_closed) = inr (inr (inr (already_closed, refl, refl)))
stat_cases (stat_failed (errno e)) = inr (inr (inr (errno e, refl, refl)))

make_cases :
    (m : Option FileError) (rest : Bool × Option FileError)
    → ((m ≡ none) × (after_mk m rest ≡ (true, none)))
      ⊎ (((m ≡ some exist) × (after_mk m rest ≡ rest))
          ⊎ ((e : FileError) × (after_mk m rest ≡ (false, some e))))
unfolding after_mk
make_cases none rest = inl (refl, refl)
make_cases (some exist) rest = inr (inl (refl, refl))
make_cases (some not_exist) rest = inr (inr (not_exist, refl))
make_cases (some already_closed) rest = inr (inr (already_closed, refl))
make_cases (some (errno e)) rest = inr (inr (errno e, refl))

-- What is said of the outcome of the rounds from `r` on.
abbrev Settles : (ℕ → Round) → ℕ → Bool × Option FileError → Type 0
Settles rounds r res =
    (res ≡ (true, none) → (k : ℕ) × (k ≤ r) × LosesTo rounds r k × Gets rounds k)
    × (res ≡ (false, none) → (k : ℕ) × (k ≤ r) × LosesTo rounds r k × Misses rounds k)

none_lost : (rounds : ℕ → Round) (r : ℕ) → LosesTo rounds r r
none_lost rounds r j h k = absurd (omega arith)

one_more_lost :
    (rounds : ℕ → Round) (r k : ℕ)
    → Loses (rounds (suc r))
    → LosesTo rounds r k
    → LosesTo rounds (suc r) k
one_more_lost rounds r k last h j a b = elim (dec_lt r j) [
  | yes p ↦ subst (λ i. Loses (rounds i)) (omega arith) last
  | no p ↦ h j a (omega arith)
]

module _ (rounds : ℕ → Round) where
  Gets-now : (r : ℕ) → Gets rounds r → Settles rounds r (true, none)
  Gets-now r g = (λ _. (r, omega arith, none_lost rounds r, g), λ h. cc)

  Misses-now : (r : ℕ) → Misses rounds r → Settles rounds r (false, none)
  Misses-now r g = (λ h. cc, λ _. (r, omega arith, none_lost rounds r, g))

  fails_now : (r : ℕ) (e : FileError) → Settles rounds r (false, some e)
  fails_now r e = (λ h. cc, λ h. cc)

  Settles-later :
      (r : ℕ) (res : Bool × Option FileError)
      → Loses (rounds (suc r))
      → Settles rounds r res
      → Settles rounds (suc r) res
  Settles-later r res l (a, b) = (
    λ h. let (k, lt, lost, g) = a h in (k, omega arith, one_more_lost rounds r k l lost, g),
    λ h. let (k, lt, lost, g) = b h in (k, omega arith, one_more_lost rounds r k l lost, g),
  )

zero_round :
    (rounds : ℕ → Round) {s : Stat}
    → (rounds 0).stat ≡ s
    → check_from 0 rounds ≡ (if is_not_exist (is_fifo s).1 then (false, none) else is_fifo s)
unfolding check_from
zero_round rounds e = rw e

one_round :
    (r : ℕ) (rounds : ℕ → Round) {s : Stat}
    → (rounds (suc r)).stat ≡ s
    → check_from (suc r) rounds ≡ (
        if is_not_exist (is_fifo s).1
        then after_mk
            (mk_fifo (rounds (suc r)).mkdir_err (rounds (suc r)).mkfifo_err)
            (check_from r rounds)
        else is_fifo s)
unfolding check_from
one_round r rounds e = rw e

Settles-by :
    (rounds : ℕ → Round) (r : ℕ) {a b : Bool × Option FileError}
    → a ≡ b
    → Settles rounds r b
    → Settles rounds r a
Settles-by rounds r e s = subst (Settles rounds r) (sym e) s

fails-by :
    (e : FileError)
    → is_not_exist (some e) ≡ false
    → (x : Bool × Option FileError)
    → (if is_not_exist (is_fifo (stat_failed e)).1 then x else is_fifo (stat_failed e))
      ≡ (false, some e)
unfolding is_fifo
fails-by e n x = rw n

check_from-Settles : (r : ℕ) (rounds : ℕ → Round) → Settles rounds r (check_from r rounds)
unfolding is_fifo
check_from-Settles zero rounds = elim (stat_cases (rounds 0).stat) [
  | inl e ↦ Settles-by rounds 0 (zero_round rounds e) (Gets-now rounds 0 (inl e))
  | inr (inl e) ↦ Settles-by rounds 0 (zero_round rounds e) (Misses-now rounds 0 (inl e))
  | inr (inr (inl e)) ↦
      Settles-by rounds 0 (zero_round rounds e) (Misses-now rounds 0 (inr (refl, e)))
  | inr (inr (inr (x, e, n))) ↦
      Settles-by rounds 0 (zero_round rounds e ∙ fails-by x n (false, none)) (fails_now rounds 0 x)
]
check_from-Settles (suc r) rounds = elim (stat_cases (rounds (suc r)).stat) [
  | inl e ↦ Settles-by rounds (suc r) (one_round r rounds e) (Gets-now rounds (suc r) (inl e))
  | inr (inl e) ↦
      Settles-by rounds (suc r) (one_round r rounds e) (Misses-now rounds (suc r) (inl e))
  | inr (inr (inr (x, e, n))) ↦
      Settles-by rounds (suc r) (one_round r rounds e ∙ fails-by x n _) (fails_now rounds (suc r) x)
  | inr (inr (inl e)) ↦
      elim (make_cases (mk_fifo (rounds (suc r)).mkdir_err (rounds (suc r)).mkfifo_err)
        (check_from r rounds)) [
          | inl (m, f) ↦
              Settles-by rounds (suc r) (one_round r rounds e ∙ f)
                (Gets-now rounds (suc r) (inr (omega arith, e, m)))
          | inr (inl (m, f)) ↦
              Settles-by rounds (suc r) (one_round r rounds e ∙ f)
                (Settles-later rounds r _ (e, m) (check_from-Settles r rounds))
          | inr (inr (x, f)) ↦
              Settles-by rounds (suc r) (one_round r rounds e ∙ f) (fails_now rounds (suc r) x)
        ]
]

-- The search for a fifo ends within four rounds, whatever other processes do to the file between its
-- calls. It answers that there is a fifo only if it finds one or makes one, in a round before which
-- each one found no file and then could not make it because there was one. It answers that there is
-- none, without an error, only behind such rounds too, if it finds another kind of file or the
-- fourth round finds none.
pub check_or_create_fifo_lem :
    (rounds : ℕ → Round)
    → (check_or_create_fifo rounds ≡ (true, none)
        → (k : ℕ) × (k ≤ 3) × LosesTo rounds 3 k × Gets rounds k)
      × (check_or_create_fifo rounds ≡ (false, none)
          → (k : ℕ) × (k ≤ 3) × LosesTo rounds 3 k × Misses rounds k)
unfolding check_or_create_fifo
check_or_create_fifo_lem = check_from-Settles 3

-- A handle that is made is that of a fifo, holds one open descriptor, and opens again only the file that
-- it was made of: `OpenFifo` without an error has found the device and the inode of that file. `Close`
-- closes the descriptor, and a second one changes nothing. If none is made, no descriptor stays
-- open.
get_or_create_handle_lem :
    (c : Calls) (r : Reopen)
    → ((h : Handle)
        → get_or_create_handle c ≡ made h
        → (is_fifo_mode c.fstat.mode ≡ true)
          × (h.files ≡ 1)
          × ((close h).files ≡ 0)
          × (close (close h) ≡ close h)
          × (open_fifo h r ≡ none → (r.stat.dev ≡ c.fstat.dev) × (r.stat.ino ≡ c.fstat.ino)))
      × ((e : HandleError) (files : ℕ) → get_or_create_handle c ≡ refused e files → files ≡ 0)
unfolding get_or_create_handle close open_fifo is_fifo_mode
get_or_create_handle_lem c r = (λ h e. ground arith, λ e files h. ground arith)
