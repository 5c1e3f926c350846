-- ===== src/Luhn/Tests.antt =====
-- learn/luhn.go: the check of a card number that is often used in tests.
use postman_insights_agent.Prelude.{ℕ, ◌≡◌, refl, true, ◌&&◌, List, ◌%◌, leb, length, all, nat_beq}
use postman_insights_agent.Prelude.Text.{codes}
use postman_insights_agent.Luhn.{valid_luhn, sum_digits, digit_value}
use postman_insights_agent.Luhn.Checksum.{is_digit, from_right, valid_luhn-from_right}

abbrev card : List ℕ
card = codes "4111111111111111"

card_is_valid : valid_luhn card ≡ true
unfolding valid_luhn sum_digits digit_value
card_is_valid = refl

valid_luhn-from_right_example :
    valid_luhn card
    ≡ (leb 13 (length card) && (all is_digit card && nat_beq ((from_right card).1 % 10) 0))
valid_luhn-from_right_example = valid_luhn-from_right card
