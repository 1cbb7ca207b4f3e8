-- ===== src/Common/Texts.antt =====
-- Texts as lists of code points, `strings.Join`, and the lines of a text.
use Prim.Native.Char.{code}
use Prim.Native.String.{String}
use systemd_runtime.Common.{
  ℕ, List, [], ◌∷◌, ◌++◌, Option, none, some, Bool, true, false, ◌≡◌, refl, ◌==◌, if◌then◌else◌,
  is_some,
}

abbrev pub Text : Type 0
Text = List ℕ

abbrev pub codes : String → Text
codes String.[] = []
codes (String.◌∷◌ c s) = code c ∷ codes s

-- `strings.Join`
abbrev pub join : (sep : Text) → List Text → Text
join sep [] = []
join sep (t ∷ []) = t
join sep (t ∷ (u ∷ ts)) = t ++ (sep ++ join sep (u ∷ ts))

abbrev pub newline : ℕ
newline = 10

abbrev pub add_to_first : ℕ → List Text → List Text
add_to_first c [] = (c ∷ []) ∷ []
add_to_first c (l ∷ ls) = (c ∷ l) ∷ ls

-- The lines of a text; each newline ends one.
abbrev pub lines : Text → List Text
lines [] = []
lines (c ∷ s) = if c == newline then [] ∷ lines s else add_to_first c (lines s)

-- A text that is one line.
abbrev pub IsLine : Text → Type 0
IsLine [] = Unit {0}
IsLine (c ∷ s) = ((c == newline) ≡ false) × IsLine s

abbrev pub AreLines : List Text → Type 0
AreLines [] = Unit {0}
AreLines (t ∷ ts) = IsLine t × AreLines ts

-- The text behind a prefix.
abbrev pub strip : (key line : Text) → Option Text
strip [] line = some line
strip (k ∷ key) [] = none
strip (k ∷ key) (c ∷ line) = if k == c then strip key line else none

abbrev pub add_some : Option Text → List Text → List Text
add_some none ts = ts
add_some (some t) ts = t ∷ ts

-- How a reader of unit files takes a key: the values of all lines that begin with it.
abbrev pub values : (key : Text) → List Text → List Text
values key [] = []
values key (l ∷ ls) = add_some (strip key l) (values key ls)

pub lines-IsLine : (t rest : Text) → IsLine t → lines (t ++ (newline ∷ rest)) ≡ t ∷ lines rest
lines-IsLine [] rest h = refl
lines-IsLine (c ∷ t) rest (h, hs) = rw (h, lines-IsLine t rest hs) refl

-- `strings.HasPrefix(t, prefix)`
abbrev pub has_prefix : (t prefix : Text) → Bool
has_prefix t prefix = is_some (strip prefix t)

abbrev pub text_eq : Text → Text → Bool
text_eq [] [] = true
text_eq [] (d ∷ u) = false
text_eq (c ∷ t) [] = false
text_eq (c ∷ t) (d ∷ u) = if c == d then text_eq t u else false

abbrev pub is_empty : Text → Bool
is_empty [] = true
is_empty (c ∷ t) = false
