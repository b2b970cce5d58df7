-- ===== src/Text/Parse.antt =====
-- The conversion of text to integers in stdlib/cpp/cstdlib.cpp: `strtoull`, `strtoll`, `strtoul`,
-- `strtol`, `atoi`, `atol` and `atoll`. `long` has 32 bits and `long long` 64. A result carries the end
-- pointer that the source stores; whether the caller passes a place for it is a Boolean. A loop
-- over the text is on fuel, a round for each byte of the memory, and `none` stands for a text with
-- no end. A `char` from 128 on is negative and in no class.
pub mod Digits
pub mod Reads
pub mod Chars
pub mod Unsigned
pub mod Printed
use stable_genius.Common.{
  ℕ, zero, suc, ◌+◌, ◌-◌, ◌*◌, ◌/◌, ◌%◌, ◌^◌, Bool, true, false, not, ◌&&◌, ◌||◌, Option, none,
  some, ◌==◌, ltb, leb, if◌then◌else◌,
}
use stable_genius.Common.Int.{ℤ, pos, negsuc}
use mathlib.Core.Option
use stable_genius.Ctype.{isspace, isdigit, islower, isupper}
use stable_genius.Text.{Memory}

-- `numeric_limits<unsigned long long>::max()`
abbrev pub ull_max : ℕ
ull_max = 2 ^ 64 - 1

-- A number of type `unsigned long long` and the end pointer
abbrev pub Parsed : Type 0
Parsed = ℕ × ℕ

abbrev pub is_space : ℕ → Bool
is_space c = not (isspace (pos c) == 0)

-- `while (isspace(*ptr)) ++ptr;`
pub skip_spaces : (fuel ptr : ℕ) → Memory → Option ℕ
skip_spaces zero ptr m = none
skip_spaces (suc n) ptr m =
    let rest = skip_spaces n (ptr + 1) m in if is_space (m ptr) then rest else some ptr

-- The sign, and where the text goes on.
unfoldable pub sign : (ptr : ℕ) → Memory → Bool × ℕ
sign ptr m =
    if m ptr == b'+'
    then (false, ptr + 1)
    else if m ptr == b'-'
    then (true, ptr + 1)
    else (false, ptr)

-- The prefix `0x` or `0`: the base, where the digits start, and the end pointer so far.
pub record Prefix : Type 0 where
  pub base : ℕ
  pub ptr : ℕ
  pub endptr : ℕ

abbrev is_x : ℕ → Bool
is_x c = c == b'x' || c == b'X'

unfoldable pub prefix : (base str ptr : ℕ) → Memory → Prefix
prefix base str ptr m =
    if m ptr == b'0'
    then (let p = ptr + 1 in
        if base == 16 && is_x (m p)
        then record { base = 16; ptr = p + 1; endptr = p }
        else if base == 0
        then (if is_x (m p)
            then record { base = 16; ptr = p + 1; endptr = p }
            else record { base = 8; ptr = p; endptr = p })
        else record { base = base; ptr = p; endptr = p })
    else record { base = if base == 0 then 10 else base; ptr = ptr; endptr = str }

-- The digit that a character stands for
unfoldable pub char_digit : ℕ → Option ℕ
char_digit c =
    if not (isdigit (pos c) == 0)
    then some (c - b'0')
    else if not (islower (pos c) == 0)
    then some (c - b'a' + 10)
    else if not (isupper (pos c) == 0)
    then some (c - b'A' + 10)
    else none

-- The variables of the digit loop
pub record Progress : Type 0 where
  pub endptr : ℕ
  pub accum : ℕ
  pub overflow : Bool

-- What a digit does to the accumulator; `cutoff` is above every digit.
unfoldable pub accumulate : (base cutoff digit : ℕ) → Progress → Progress
accumulate base cutoff digit s =
    if ltb (cutoff / base) s.accum || ltb (cutoff - digit) (s.accum * base % 2 ^ 64)
    then record s { overflow = true; accum = cutoff }
    else record s { accum = (s.accum * base + digit) % 2 ^ 64 }

-- The loop through the characters
pub digit_loop : (has_end : Bool) (base cutoff fuel ptr : ℕ) → Progress → Memory → Option Progress
digit_loop has_end base cutoff zero ptr s m = none
digit_loop has_end base cutoff (suc n) ptr s m = elim (char_digit (m ptr)) [
  | none ↦ some s
  | some digit ↦
      let s' = record s { endptr = ptr + 1 } in
      let overflown =
        if has_end then digit_loop has_end base cutoff n (ptr + 1) s' m else some s' in
      let rest = digit_loop has_end base cutoff n (ptr + 1) (accumulate base cutoff digit s') m in
      if leb base digit then some s else if s.overflow then overflown else rest
]

-- The end of `strtoull`: the largest value on overflow, and the sign.
unfoldable pub conclude_ull : (is_neg : Bool) → Progress → Parsed
conclude_ull is_neg s =
    if s.overflow
    then (ull_max, s.endptr)
    else if is_neg
    then ((2 ^ 64 - s.accum) % 2 ^ 64, s.endptr)
    else (s.accum, s.endptr)

-- The digits behind a sign, from their prefix on
unfoldable pub unsigned_part : (has_end : Bool) (base str : ℕ) → Bool × ℕ → Memory → Option Parsed
unsigned_part has_end base str (is_neg, ptr) m =
    let p = prefix base str ptr m in
    let start : Progress = record { endptr = p.endptr; accum = 0; overflow = false } in
    elim (digit_loop has_end p.base (ull_max / p.base) (2 ^ 32) p.ptr start m) [
      | none ↦ none
      | some s ↦ some (conclude_ull is_neg s)
    ]

unfoldable pub strtoull : (str : ℕ) (has_end : Bool) → ℤ → Memory → Option Parsed
strtoull str has_end (negsuc n) m = some (0, str)
strtoull str has_end (pos base) m =
    if base == 1 || ltb 36 base then some (0, str) else elim (skip_spaces (2 ^ 32) str m) [
      | none ↦ none
      | some ptr ↦ unsigned_part has_end base str (sign ptr m) m
    ]

-- An `unsigned long long` as a `long long`, and its opposite; the opposite of -2 ^ 63 is undefined
-- and is taken to be itself.
abbrev pub as_signed64 : ℕ → ℤ
as_signed64 n = if ltb n (2 ^ 63) then pos n else negsuc (2 ^ 64 - 1 - n)

abbrev pub opposite64 : ℕ → ℤ
opposite64 n = as_signed64 ((2 ^ 64 - n) % 2 ^ 64)

-- The end of `strtoll`: the two tests for overflow, and the sign.
unfoldable pub conclude_ll : (is_neg : Bool) → Parsed → ℤ × ℕ
conclude_ll is_neg (n, e) =
    if ltb (2 ^ 63 - 1) n && not is_neg
    then (pos (2 ^ 63 - 1), e)
    else if ltb (2 ^ 63) n && is_neg
    then (negsuc (2 ^ 63 - 1), e)
    else if is_neg
    then (opposite64 n, e)
    else (pos n, e)

unfoldable pub signed_part : (has_end : Bool) → ℤ → (str : ℕ) → Bool × ℕ → Memory → Option (ℤ × ℕ)
signed_part has_end base str (is_neg, ptr) m =
    if is_space (m ptr)
    then some (pos 0, str)
    else elim (strtoull ptr has_end base m) [ none ↦ none | some r ↦ some (conclude_ll is_neg r) ]

unfoldable pub strtoll : (str : ℕ) (has_end : Bool) → ℤ → Memory → Option (ℤ × ℕ)
strtoll str has_end base m = elim (skip_spaces (2 ^ 32) str m) [
  | none ↦ none
  | some ptr ↦ signed_part has_end base str (sign ptr m) m
]

-- The limits of a `long`
unfoldable pub clip_long : ℤ × ℕ → ℤ × ℕ
clip_long (pos n, e) = (pos (if ltb (2 ^ 31 - 1) n then 2 ^ 31 - 1 else n), e)
clip_long (negsuc n, e) = (negsuc (if ltb (2 ^ 31 - 1) n then 2 ^ 31 - 1 else n), e)

unfoldable pub strtol : (str : ℕ) (has_end : Bool) → ℤ → Memory → Option (ℤ × ℕ)
strtol str has_end base m = Option.map clip_long (strtoll str has_end base m)

-- `strtoul` stores the result of `strtoull` in an `unsigned long` before it tests for overflow.
unfoldable pub clip_ulong : Parsed → Parsed
clip_ulong (n, e) = (n % 2 ^ 32, e)

unfoldable pub strtoul : (str : ℕ) (has_end : Bool) → ℤ → Memory → Option Parsed
strtoul str has_end base m = Option.map clip_ulong (strtoull str has_end base m)

-- `atoi` clips to an `int` what fits one already.
unfoldable pub atoi : ℕ → Memory → Option ℤ
atoi str m = Option.map (λ r. (clip_long r).0) (strtol str false (pos 10) m)

unfoldable pub atol : ℕ → Memory → Option ℤ
atol str m = Option.map (λ r. r.0) (strtol str false (pos 10) m)

unfoldable pub atoll : ℕ → Memory → Option ℤ
atoll str m = Option.map (λ r. r.0) (strtoll str false (pos 10) m)
