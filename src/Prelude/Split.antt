-- ===== src/Prelude/Split.antt =====
-- strings.Split and strings.Join over texts as lists of bytes.
use Prim.Native.Nat.{ℕ}
use mathlib.Core.Path.{◌≡◌, refl, ap, ◌∙◌}
use mathlib.Core.Bool.{Bool, true, false}
use mathlib.Core.List.{List, [], ◌∷◌, ◌++◌}
use native.Mathlib.Omega.{arith}
use postman_insights_agent.Prelude.Tests.{◌==◌, nat_eq, if◌then◌else◌, if_cases}
use postman_insights_agent.Prelude.Lists.{All}
use postman_insights_agent.Prelude.Text.{avoids}

abbrev Bytes : Type 0
Bytes = List ℕ

-- strings.Split and strings.Join with a separator of one byte.
prepend : ℕ → List Bytes → List Bytes
prepend c [] = (c ∷ []) ∷ []
prepend c (segment ∷ segments) = (c ∷ segment) ∷ segments

unfoldable pub split : ℕ → Bytes → List Bytes
unfolding prepend
split separator [] = [] ∷ []
split separator (c ∷ cs) =
    let rest = split separator cs in if c == separator then [] ∷ rest else prepend c rest

unfoldable pub join : ℕ → List Bytes → Bytes
join separator [] = []
join separator (segment ∷ []) = segment
join separator (segment ∷ next ∷ segments) = segment ++ separator ∷ join separator (next ∷ segments)

abbrev pub IsSegment : ℕ → Bytes → Type 0
IsSegment separator segment = avoids separator segment ≡ true

prepend-Segments :
    (separator c : ℕ) (segments : List Bytes)
    → (c == separator) ≡ false
    → All (IsSegment separator) segments
    → All (IsSegment separator) (prepend c segments)
unfolding prepend
prepend-Segments s c [] other h = (ground (arith, other), tt)
prepend-Segments s c (x ∷ xs) other h = (ground (arith, other, h.0), h.1)

pub split-Segments :
    (separator : ℕ) (text : Bytes) → All (IsSegment separator) (split separator text)
unfolding split
split-Segments s [] = (refl, tt)
split-Segments s (c ∷ cs) =
    if_cases (All (IsSegment s)) (c == s) (λ _. (refl, split-Segments s cs))
      (λ other. prepend-Segments s c (split s cs) other (split-Segments s cs))

-- A text without the separator is one segment, and so is what stands before the first separator.
pub split-segment :
    (separator : ℕ) (segment : Bytes)
    → IsSegment separator segment
    → split separator segment ≡ segment ∷ []
unfolding split prepend
split-segment s [] h = refl
split-segment s (c ∷ cs) h = ground (arith, split-segment s cs)

pub split-append :
    (separator : ℕ) (segment rest : Bytes)
    → IsSegment separator segment
    → split separator (segment ++ separator ∷ rest) ≡ segment ∷ split separator rest
unfolding split prepend
split-append s [] rest h = ground arith
split-append s (c ∷ cs) rest h = ground (arith, split-append s cs rest)

pub split-join :
    (separator : ℕ) (segment : Bytes) (segments : List Bytes)
    → All (IsSegment separator) (segment ∷ segments)
    → split separator (join separator (segment ∷ segments)) ≡ segment ∷ segments
unfolding join
split-join s x [] h = split-segment s x h.0
split-join s x (y ∷ ys) h =
    split-append s x (join s (y ∷ ys)) h.0 ∙ ap (◌∷◌ x) (split-join s y ys h.1)

abbrev pub is_cons : List Bytes → Bool
is_cons [] = false
is_cons (_ ∷ _) = true

prepend-cons : (c : ℕ) (segments : List Bytes) → is_cons (prepend c segments) ≡ true
unfolding prepend
prepend-cons c [] = refl
prepend-cons c (_ ∷ _) = refl

pub split-cons : (separator : ℕ) (text : Bytes) → is_cons (split separator text) ≡ true
unfolding split
split-cons s [] = refl
split-cons s (c ∷ cs) =
    if_cases (λ x. is_cons x ≡ true) (c == s) (λ _. refl) (λ _. prepend-cons c (split s cs))
