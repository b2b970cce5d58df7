-- ===== src/Text/Parse/Unsigned.antt =====
-- `strtoull` at a run of digits.
use stable_genius.Common.{
  ℕ, suc, ◌+◌, ◌-◌, ◌/◌, ◌^◌, ◌≤◌, ◌<◌, ◌≡◌, ◌≢◌, refl, Bool, true, false, some, ◌⊎◌, inl, inr,
  ◌==◌, leb, arith, Bool-cases, if◌then◌else◌,
}
use native.Mathlib.Nat.{add-zero}
use stable_genius.Common.Int.{pos}
use stable_genius.Text.{Memory}
use stable_genius.Text.Parse.{
  Prefix, Progress, prefix, is_space, skip_spaces, sign, char_digit, digit_loop, conclude_ull,
  unsigned_part, strtoull, ull_max,
}
use stable_genius.Text.Parse.Digits.{IsNumeral, value, char_value}
use stable_genius.Text.Parse.Chars.{digit_no_space, digit_no_sign, zero_char}
use stable_genius.Text.Parse.Reads.{Outcome, run}

-- Text that starts with no space, no sign and no prefix
skip_spaces-none :
    (f ptr : ℕ) (m : Memory) → is_space (m ptr) ≡ false → skip_spaces (suc f) ptr m ≡ some ptr
unfolding skip_spaces
skip_spaces-none f ptr m h = rw h refl

pub at_text :
    (ptr : ℕ) (m : Memory) → is_space (m ptr) ≡ false → skip_spaces (2 ^ 32) ptr m ≡ some ptr
at_text ptr m h = skip_spaces-none (2 ^ 32 - 1) ptr m h

pub sign-none : (ptr : ℕ) (m : Memory) → m ptr ≢ b'+' → m ptr ≢ b'-' → sign ptr m ≡ (false, ptr)
unfolding sign
sign-none ptr m h k = ground (arith, h, k)

prefix-none :
    (base str ptr : ℕ) (m : Memory)
    → m ptr ≢ b'0'
    → base ≢ 0
    → prefix base str ptr m ≡ record { base = base; ptr = ptr; endptr = str }
unfolding prefix
prefix-none base str ptr m h k = ground (arith, h, k)

prefix-zero :
    (base str ptr : ℕ) (m : Memory)
    → m ptr ≡ b'0'
    → base ≢ 0
    → base ≢ 16
    → prefix base str ptr m ≡ record { base = base; ptr = ptr + 1; endptr = ptr + 1 }
unfolding prefix
prefix-zero base str ptr m h k l = ground (arith, h, k, l)

module _ (has_end : Bool) (base str ptr n : ℕ) (m : Memory) (num : IsNumeral base m ptr n)
    (some' : 1 ≤ n) (short : n < 2 ^ 32) where
  abbrev Loop : Prefix → Progress → Type 0
  Loop p s =
      digit_loop has_end p.base (ull_max / p.base) (2 ^ 32) p.ptr
        (record { endptr = p.endptr; accum = 0; overflow = false }) m
      ≡ some s

  -- Behind a first digit 0 the loop starts with the second digit.
  digits-Outcome :
      (m ptr ≢ b'0') ⊎ (base ≢ 16)
      → (s : Progress) × Loop (prefix base str ptr m) s
        × Outcome has_end base (value base m ptr n) (ptr + n) s
  unfolding value char_value
  digits-Outcome plain =
      let low = num.low in
      elim (Bool-cases (m ptr == b'0')) [
        | inl zero' ↦
            let z : m ptr ≡ b'0' = ground (arith, zero') in
            let other : base ≢ 16 = ground (arith, plain, z) in
            let first : value base m ptr 1 ≡ 0 =
              let at : char_digit (m ptr) ≡ some 0 = rw z zero_char in
              rw add-zero (ground (arith, at)) in
            let (s, e, o) =
              run has_end base m ptr n num (n - 1) 1 (2 ^ 32) (ptr + 1) (omega arith) (omega arith)
                (inl refl) (rw first (omega arith)) in
            (s, rw (prefix-zero base str ptr m z (omega (arith, low)) other) (rw first at e), o)
        | inr more ↦
            let (s, e, o) =
              run has_end base m ptr n num n 0 (2 ^ 32) str (omega arith) (omega arith)
                (inr (omega arith)) (omega arith) in
            (
              s,
              rw (prefix-none base str ptr m (ground (arith, more)) (omega (arith, low)))
                  (rw add-zero at e),
              o,
            )
      ]

  pub unsigned_part-Outcome :
      (is_neg : Bool)
      → (m ptr ≢ b'0') ⊎ (base ≢ 16)
      → (s : Progress) × (unsigned_part has_end base str (is_neg, ptr) m
          ≡ some (conclude_ull is_neg s))
        × Outcome has_end base (value base m ptr n) (ptr + n) s
  unfolding unsigned_part
  unsigned_part-Outcome is_neg plain =
      let (s, e, o) = digits-Outcome plain in (s, rw (e, unsigned_part) refl, o)

-- `strtoull` ends at a run of digits and reads the number that they stand for where it is at most the
-- largest `unsigned long long` divided by the base, and that largest value where it is more. The
-- end pointer, where it is asked for, stands behind the run. The run has 1 to 2 ^ 32 - 1 digits of
-- a base from 2 to 36 and stops at a character that is no digit of the base; in base 16 it starts
-- with no 0.
pub strtoull-reads :
    (has_end : Bool) (base str n : ℕ) (m : Memory)
    → IsNumeral base m str n
    → 1 ≤ n
    → n < 2 ^ 32
    → (m str ≢ b'0') ⊎ (base ≢ 16)
    → (e : ℕ) × (strtoull str has_end (pos base) m
        ≡ some
            (if leb (value base m str n) (ull_max / base) then value base m str n else ull_max, e))
      × (has_end ≡ true → e ≡ str + n)
unfolding strtoull conclude_ull
strtoull-reads has_end base str n m num some' short plain =
    let (d, shows, small) = num.digits 0 (omega arith) in
    let at : char_digit (m str) ≡ some d = rw add-zero at shows in
    let (no_plus, no_minus) = digit_no_sign (m str) d at in
    let skipped = at_text str m (digit_no_space (m str) d at) in
    let (s, e, o) = unsigned_part-Outcome has_end base str str n m num some' short false plain in
    let fits : (base == 1) ≡ false = ground (arith, num.low) in
    (
      s.endptr,
      ground (
        arith,
        skipped,
        sign-none str m no_plus no_minus,
        e,
        num.low,
        num.high,
        o.exact,
        o.clipped,
      ),
      o.end,
    )
