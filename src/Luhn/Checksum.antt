-- ===== src/Luhn/Checksum.antt =====
-- learn/luhn.go: the check against the textbook's, which goes through the digits from the right.
use postman_insights_agent.Prelude.{
  ℕ, suc, ◌+◌, ◌-◌, ◌*◌, ◌/◌, ◌%◌, ◌≡◌, refl, Bool, true, false, not, ◌&&◌, none, some, List, [],
  ◌∷◌, arith, length, leb, nat_beq, if◌then◌else◌, all,
}
use postman_insights_agent.Luhn.{digit_value, sum_digits, valid_luhn}

abbrev pub is_digit : ℕ → Bool
is_digit d = leb b'0' d && leb d b'9'

-- The weight of a digit: twice the digit, by its digit sum, at every second place.
abbrev weight : Bool → ℕ → ℕ
weight doubled d = let n = d - b'0' in if doubled then (n * 2) / 10 + (n * 2) % 10 else n

-- From the right: whether the next place is doubled, and the sum so far.
pub from_right : List ℕ → Bool × ℕ
from_right [] = (false, 0)
from_right (d ∷ ds) = let (doubled, s) = from_right ds in (not doubled, weight doubled d + s)

from_right-parity : (ds : List ℕ) → (from_right ds).0 ≡ nat_beq (length ds % 2) 1
unfolding from_right
from_right-parity [] = refl
from_right-parity (d ∷ ds) = ground (arith, from_right-parity ds)

digit_value-weight :
    (i n d : ℕ)
    → is_digit d ≡ true
    → digit_value i ((i + suc n) % 2) d ≡ weight (nat_beq (n % 2) 1) d
unfolding digit_value
digit_value-weight i n d h = ground arith

sum_digits-from_right :
    (parity i total : ℕ) (ds : List ℕ)
    → parity ≡ (i + length ds) % 2
    → sum_digits parity i total ds
      ≡ (if all is_digit ds then some (total + (from_right ds).1) else none)
unfolding sum_digits from_right
sum_digits-from_right parity i total [] e = ground arith
sum_digits-from_right parity i total (d ∷ ds) e = ground (
  arith,
  sum_digits-from_right parity (i + 1) (total + digit_value i parity d) ds,
  from_right-parity ds,
  digit_value-weight i (length ds) d,
)

-- A number is valid exactly when it has at least thirteen characters, all of them digits, and its
-- textbook sum is a multiple of ten.
pub valid_luhn-from_right :
    (number : List ℕ)
    → valid_luhn number
      ≡ (leb 13 (length number) && (all is_digit number && nat_beq ((from_right number).1 % 10) 0))
unfolding valid_luhn
valid_luhn-from_right number = ground (arith, sum_digits-from_right (length number % 2) 0 0 number)
