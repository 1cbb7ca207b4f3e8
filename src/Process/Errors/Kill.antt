-- ===== src/Process/Errors/Kill.antt =====
-- What `checkKillError` of process/utils.go makes of an error of runc or of the kernel.
use systemd_runtime.Common.{ℕ, List, [], ◌∷◌, ◌++◌, none, some, true, ◌≡◌, ◌≢◌, refl, arith}
use systemd_runtime.Process.Errors.{
  RunError, has_prefix, contains_text, codes, check_kill_error, process_finished,
  unknown_after_kill,
}

has_prefix-append : (part rest : List ℕ) → has_prefix (part ++ rest) part ≡ true
unfolding has_prefix
has_prefix-append [] [] = refl
has_prefix-append [] (c ∷ rest) = refl
has_prefix-append (p ∷ part) rest = ground (arith, has_prefix-append part rest)

contains_prefix :
    (text part : List ℕ) → has_prefix text part ≡ true → contains_text text part ≡ true
unfolding contains_text
contains_prefix [] part h = h
contains_prefix (c ∷ text) part h = rw h

-- A text contains each of its parts.
contains_text-append :
    (before part after : List ℕ) → contains_text (before ++ (part ++ after)) part ≡ true
unfolding contains_text
contains_text-append [] part after =
    contains_prefix (part ++ after) part (has_prefix-append part after)
contains_text-append (c ∷ before) part after =
    ground (arith, contains_text-append before part after)

has_part :
    (e : RunError) (before part after : List ℕ)
    → e.text ≡ before ++ (part ++ after)
    → contains_text e.text part ≡ true
has_part e before part after h = rw h (contains_text-append before part after)

-- `checkKillError` makes an error of each error and none of none. `ESRCH`, and each error whose text has
-- "container not running" or "os: process already finished" somewhere, becomes "process already
-- finished"; an error whose text has "does not exist" somewhere never stays unknown.
check_kill_error_lem :
    (e : RunError) (before after : List ℕ)
    → (check_kill_error none ≡ none)
      × (check_kill_error (some e) ≢ none)
      × (e.is_esrch ≡ true → check_kill_error (some e) ≡ some process_finished)
      × (e.text ≡ before ++ (codes "container not running" ++ after)
          → check_kill_error (some e) ≡ some process_finished)
      × (e.text ≡ before ++ (codes "os: process already finished" ++ after)
          → check_kill_error (some e) ≡ some process_finished)
      × (e.text ≡ before ++ (codes "does not exist" ++ after)
          → check_kill_error (some e) ≢ some (unknown_after_kill e))
unfolding check_kill_error
check_kill_error_lem e before after = (
  refl,
  λ h. ground arith,
  λ h. ground arith,
  λ h. ground (arith, has_part e before (codes "container not running") after h),
  λ h. ground (arith, has_part e before (codes "os: process already finished") after h),
  λ h k. ground (arith, has_part e before (codes "does not exist") after h),
)
