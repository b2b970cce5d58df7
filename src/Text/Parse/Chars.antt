-- ===== src/Text/Parse/Chars.antt =====
-- The characters that `strtoull` tells apart, as ranges of codes.
use stable_genius.Common.{
  ℕ, ◌+◌, ◌-◌, ◌<◌, ◌≡◌, ◌≢◌, false, ◌||◌, ◌==◌, Option, none, some, arith, if◌then◌else◌, ◌∙◌,
}
use stable_genius.Common.Int.{pos}
use stable_genius.Ctype.{isdigit, islower, isupper}
use stable_genius.Ctype.Classes.{Class, class_of, in_class, class_of-in_class, between, truth}
use stable_genius.Text.Numbers.{digit}
use stable_genius.Text.Parse.{is_space, char_digit}

space_range : (c : ℕ) → is_space c ≡ between 9 13 c || c == 32
unfolding class_of in_class
space_range c = class_of-in_class Class.space c

digit_range : (c : ℕ) → truth (isdigit (pos c)) ≡ between b'0' b'9' c
unfolding class_of in_class
digit_range c = class_of-in_class Class.digit c

lower_range : (c : ℕ) → truth (islower (pos c)) ≡ between b'a' b'z' c
unfolding class_of in_class
lower_range c = class_of-in_class Class.lower c

upper_range : (c : ℕ) → truth (isupper (pos c)) ≡ between b'A' b'Z' c
unfolding class_of in_class
upper_range c = class_of-in_class Class.upper c

abbrev digit_of : ℕ → Option ℕ
digit_of c =
    if between b'0' b'9' c
    then some (c - b'0')
    else if between b'a' b'z' c
    then some (c - b'a' + 10)
    else if between b'A' b'Z' c
    then some (c - b'A' + 10)
    else none

char_digit-ranges : (c : ℕ) → char_digit c ≡ digit_of c
unfolding char_digit
char_digit-ranges c = rw (digit_range c, lower_range c, upper_range c) (ground arith)

-- A digit is neither a space nor a sign.
pub digit_no_space : (c d : ℕ) → char_digit c ≡ some d → is_space c ≡ false
digit_no_space c d h = let e = char_digit-ranges c in space_range c ∙ ground (arith, h, e)

pub digit_no_sign : (c d : ℕ) → char_digit c ≡ some d → (c ≢ b'+') × (c ≢ b'-')
digit_no_sign c d h = let e = char_digit-ranges c in (ground (arith, h, e), ground (arith, h, e))

-- The digits that the printing functions write are those that are read here.
pub char_digit-digit : (d : ℕ) → d < 36 → char_digit (digit d) ≡ some d
char_digit-digit d h = char_digit-ranges (digit d) ∙ ground (arith, h)

pub zero_char : char_digit b'0' ≡ some 0
zero_char = char_digit-ranges b'0'

pub end_char : char_digit 0 ≡ none
end_char = char_digit-ranges 0

pub minus_no_space : is_space b'-' ≡ false
minus_no_space = space_range b'-'
