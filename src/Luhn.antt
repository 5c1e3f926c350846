-- ===== src/Luhn.antt =====
-- learn/luhn.go: the Luhn check of a number, by its bytes. (Go ranges over runes; a rune that is not
-- ASCII is refused by the test of its value, and so are its bytes.)
pub mod Checksum
mod Tests
use postman_insights_agent.Prelude.{
  ℕ, ◌+◌, ◌-◌, ◌*◌, ◌%◌, ◌≤◌, ◌<◌, ◌≡◌, refl, ◌∙◌, ◌↔◌, Bool, true, false, ◌||◌, ◌&&◌, Option, none,
  some, List, [], ◌∷◌, arith, length, ltb, nat_beq, if◌then◌else◌, All, map, suc, zero, ap,
}

abbrev pub ascii_zero : ℕ
ascii_zero = 48

abbrev pub ascii_ten : ℕ
ascii_ten = 57

-- The body of the loop after the test of the character.
digit_value : ℕ → ℕ → ℕ → ℕ
digit_value i parity d =
    let n = d - ascii_zero in
    if nat_beq (i % 2) parity
    then (let doubled = n * 2 in if ltb 9 doubled then doubled - 9 else doubled)
    else n

-- The loop, from index `i` on; `none` is its early return.
sum_digits : ℕ → ℕ → ℕ → List ℕ → Option ℕ
unfolding digit_value
sum_digits parity i total [] = some total
sum_digits parity i total (d ∷ ds) =
    let rest = sum_digits parity (i + 1) (total + digit_value i parity d) ds in
    if ltb d ascii_zero || ltb ascii_ten d then none else rest

pub valid_luhn : List ℕ → Bool
unfolding sum_digits
valid_luhn number =
    if ltb (length number) 13 then false else elim (sum_digits (length number % 2) 0 0 number) [
      | none ↦ false
      | some total ↦ nat_beq (total % 10) 0
    ]
