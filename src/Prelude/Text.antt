-- ===== src/Prelude/Text.antt =====
-- Texts as lists of bytes, where the program takes them apart.
use Prim.Native.Nat.{ℕ, suc}
use Prim.Native.Char.{code}
use Prim.Native.String.{String}
use mathlib.Core.Path.{◌≡◌, refl}
use mathlib.Core.Logic.{◌↔◌}
use mathlib.Core.Bool.{Bool, true, false, ◌&&◌}
use mathlib.Core.Option.{Option, none, some}
use mathlib.Core.List.{List, [], ◌∷◌, ◌++◌}
use native.Mathlib.Omega.{arith}
use postman_insights_agent.Prelude.Tests.{Comparable, nat_beq, if◌then◌else◌}
use postman_insights_agent.Prelude.Lists.{length, all}

-- The bytes of an ASCII text.
abbrev pub codes : String → List ℕ
codes String.[] = []
codes (String.◌∷◌ c s) = code c ∷ codes s

abbrev pub bytes_beq : List ℕ → List ℕ → Bool
bytes_beq [] [] = true
bytes_beq [] (_ ∷ _) = false
bytes_beq (_ ∷ _) [] = false
bytes_beq (a ∷ x) (b ∷ y) = nat_beq a b && bytes_beq x y

pub bytes_beq_iff : (x y : List ℕ) → (bytes_beq x y ≡ true) ↔ (x ≡ y)
bytes_beq_iff [] [] = (λ _. refl, λ _. refl)
bytes_beq_iff [] (_ ∷ _) = (λ e. cc, λ e. cc)
bytes_beq_iff (_ ∷ _) [] = (λ e. cc, λ e. cc)
bytes_beq_iff (a ∷ x) (b ∷ y) =
    (λ e. ground (arith, bytes_beq_iff x y), λ e. ground (arith, bytes_beq_iff x y))

instance abbrev pub bytes_eq : Comparable (List ℕ)
bytes_eq = record { same = bytes_beq; same_iff = bytes_beq_iff }

-- strings.LastIndex of a text of one byte; `none` is -1.
unfoldable pub last_index : ℕ → List ℕ → Option ℕ
last_index c [] = none
last_index c (x ∷ xs) = elim (last_index c xs) [
  | some i ↦ some (suc i)
  | none ↦ if nat_beq x c then some 0 else none
]

abbrev pub avoids : ℕ → List ℕ → Bool
avoids c = all λ x. if nat_beq x c then false else true

pub last_index-none : (c : ℕ) (xs : List ℕ) → avoids c xs ≡ true → last_index c xs ≡ none
unfolding last_index
last_index-none c [] h = refl
last_index-none c (x ∷ xs) h = ground (arith, last_index-none c xs)

-- The last occurrence is the one after which there is no other.
pub last_index-append :
    (c : ℕ) (xs ys : List ℕ) → avoids c ys ≡ true → last_index c (xs ++ c ∷ ys) ≡ some (length xs)
unfolding last_index
last_index-append c [] ys h = ground (arith, last_index-none c ys h)
last_index-append c (x ∷ xs) ys h = ground (arith, last_index-append c xs ys h)
