-- ===== src/Common/Maps.antt =====
-- Go maps with numbers as keys, as lists of pairs: a read, a write and `delete`.
use systemd_runtime.Common.Tests.{◌==◌, if◌then◌else◌}
use Prim.Native.Nat.{ℕ}
use mathlib.Core.Path.{◌≡◌, refl}
use mathlib.Core.Option.{Option, none, some}
use mathlib.Core.List.{List, [], ◌∷◌}
use native.Mathlib.Omega.{arith}

unfoldable pub lookup {ℓ} : {A : Type ℓ} → ℕ → List (ℕ × A) → Option A
lookup k [] = none
lookup k ((j, a) ∷ m) = if j == k then some a else lookup k m

unfoldable pub insert {ℓ} : {A : Type ℓ} → ℕ → A → List (ℕ × A) → List (ℕ × A)
insert k a [] = (k, a) ∷ []
insert k a ((j, b) ∷ m) = if j == k then (k, a) ∷ m else (j, b) ∷ insert k a m

unfoldable pub erase {ℓ} : {A : Type ℓ} → ℕ → List (ℕ × A) → List (ℕ × A)
erase k [] = []
erase k ((j, a) ∷ m) = if j == k then erase k m else (j, a) ∷ erase k m

pub lookup-insert {ℓ} :
    {A : Type ℓ} (j k : ℕ) (a : A) (m : List (ℕ × A))
    → lookup j (insert k a m) ≡ (if k == j then some a else lookup j m)
unfolding lookup insert
lookup-insert j k a [] = refl
lookup-insert j k a ((i, b) ∷ m) = ground (arith, lookup-insert j k a m)

pub lookup-erase {ℓ} :
    {A : Type ℓ} (j k : ℕ) (m : List (ℕ × A))
    → lookup j (erase k m) ≡ (if k == j then none else lookup j m)
unfolding lookup erase
lookup-erase j k [] = ground arith
lookup-erase j k ((i, b) ∷ m) = ground (arith, lookup-erase j k m)
