-- ===== src/Tests/Texts.antt =====
-- Strings and printed numbers at concrete memories.
use stable_genius.Common.{
  ℕ, ◌+◌, ◌≤◌, ◌<◌, ◌≡◌, ◌⊎◌, refl, some, arith, ◌/◌, leb, inl, inr, Bool-cases, true,
  if◌then◌else◌, ◌==◌,
}
use stable_genius.Common.Int.{pos, negsuc}
use stable_genius.Text.{Memory, IsString}
use stable_genius.Text.Numbers.{uitoa, itoa}
use stable_genius.Text.Numbers.Print
use stable_genius.Text.Numbers.Print.{Prints, read}
use stable_genius.Text.Strings.{memcpy, memmove}
use stable_genius.Text.Parse.{strtoull, atoi, ull_max}
use stable_genius.Text.Parse.Chars.{char_digit-digit, end_char}
use stable_genius.Text.Parse.Digits.{IsNumeral, value}
use stable_genius.Text.Parse.Digits
use stable_genius.Text.Parse.Unsigned
use stable_genius.Text.Parse.Printed
use stable_genius.Text.Strings.Copies
use stable_genius.Text.Strings.Copies.{copied}

abbrev blank : Memory
blank a = 0

uitoa-Prints_example :
    (m' : Memory) × (n : ℕ) × (uitoa 255 100 16 blank ≡ some m')
    × Prints 16 255 100 n blank m'
    × (1 ≤ n)
    × (n ≤ 64)
uitoa-Prints_example =
    Print.uitoa-Prints 255 100 16 blank (omega arith) (omega arith) (omega arith) (omega arith)

-- Each byte holds its own address.
abbrev numbered : Memory
numbered a = a

memmove-memcpy_example :
    ((memmove 100 102 8 numbered).1 ≡ 100)
    × ((memmove 100 102 8 numbered).0 103 ≡ copied 100 102 8 numbered 103)
    × (((100 ≤ 102) ⊎ (102 + 8 ≤ 100))
        → (memcpy 100 102 8 numbered).0 103 ≡ (memmove 100 102 8 numbered).0 103)
memmove-memcpy_example = Copies.memmove-memcpy 100 102 8 numbered 103 (omega arith) (omega arith)

-- The text "A" at 100 and at 200
abbrev letters : Memory
letters a = if a == 100 then b'A' else if a == 200 then b'A' else 0

letter_at_100 : IsString letters 100 1
letter_at_100 = record { end = refl; chars = λ i h. ground arith; fits = omega arith }

letter_at_200 : IsString letters 200 1
letter_at_200 = record { end = refl; chars = λ i h. ground arith; fits = omega arith }

-- The text "42"
abbrev forty_two : Memory
forty_two a = if a == 100 then b'4' else if a == 101 then b'2' else 0

two_digits : (k : ℕ) → k < 2 → Digits.IsDigit 10 (forty_two (100 + k))
two_digits k h = elim (Bool-cases (k == 0)) [
  | inl first ↦ (4, ground (arith, first, char_digit-digit 4), omega arith)
  | inr second ↦ (2, ground (arith, second, h, char_digit-digit 2), omega arith)
]

forty_two-IsNumeral : IsNumeral 10 forty_two 100 2
forty_two-IsNumeral = record {
  low = omega arith;
  high = omega arith;
  digits = λ k h. two_digits k h;
  stop = inl end_char;
}

strtoull-reads_example :
    (e : ℕ) × (strtoull 100 true (pos 10) forty_two
      ≡ some (
        if leb (value 10 forty_two 100 2) (ull_max / 10) then value 10 forty_two 100 2 else ull_max,
        e,
      ))
    × (true ≡ true → e ≡ 100 + 2)
strtoull-reads_example =
    Unsigned.strtoull-reads true 10 100 2 forty_two forty_two-IsNumeral (omega arith) (omega arith)
      (inr (omega arith))

atoi-itoa_example :
    (m' : Memory) × (itoa (negsuc 41) 100 10 blank ≡ some m') × (atoi 100 m' ≡ some (negsuc 41))
atoi-itoa_example = Printed.atoi-itoa (negsuc 41) 100 blank (omega arith) (omega arith)
