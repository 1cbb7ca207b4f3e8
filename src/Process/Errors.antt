-- ===== src/Process/Errors.antt =====
-- The errors of process/utils.go, and its reading of what runc says after a kill.
pub mod Kill
use Prim.Native.Char.{code}
use Prim.Native.String.{String}
use systemd_runtime.Common.{
  ℕ, ◌+◌, List, [], ◌∷◌, map, Option, none, some, Bool, true, false, if◌then◌else◌, ◌&&◌, ◌||◌,
  ◌==◌, leb, ltb,
}

-- The code points of a text.
abbrev pub codes : String → List ℕ
codes String.[] = []
codes (String.◌∷◌ c s) = code c ∷ codes s

-- `strings.HasPrefix`
pub has_prefix : List ℕ → List ℕ → Bool
has_prefix text [] = true
has_prefix [] (p ∷ ps) = false
has_prefix (c ∷ text) (p ∷ ps) = c == p && has_prefix text ps

-- `strings.Contains`
unfoldable pub contains_text : List ℕ → List ℕ → Bool
unfolding has_prefix
contains_text [] part = has_prefix [] part
contains_text (c ∷ text) part = has_prefix (c ∷ text) part || contains_text text part

-- `strings.ToLower` on ASCII.
abbrev pub to_lower : ℕ → ℕ
to_lower c = if leb 65 c && leb c 90 then c + 32 else c

-- An `error` of runc or of the kernel: its text, and whether it is `unix.ESRCH`.
pub record RunError : Type 0 where
  pub text : List ℕ
  pub is_esrch : Bool

-- The errors that the package returns, by their cause: a state that has no such operation; the two of
-- errdefs; an error of runc, wrapped; of another system call.
pub data Error : Type 0 where
  cannot process_finished no_container deleted_not_found not_created invalid_transition : Error
  run_error unknown_after_kill : RunError → Error
  system : ℕ → Error

-- `checkKillError`
unfoldable pub check_kill_error : Option RunError → Option Error
check_kill_error none = none
check_kill_error (some e) =
    if contains_text e.text (codes "os: process already finished")
      || contains_text e.text (codes "container not running")
      || contains_text (map to_lower e.text) (codes "no such process")
      || e.is_esrch
    then some process_finished
    else if contains_text e.text (codes "does not exist")
    then some no_container
    else some (unknown_after_kill e)

-- The test of `delete` on the error of `runtime.Delete`.
unfoldable pub is_gone : RunError → Bool
unfolding contains_text
is_gone e = contains_text e.text (codes "does not exist")
