-- ===== src/Text/Parse/Printed.antt =====
-- `atoi` on the text that `itoa` prints.
use stable_genius.Common.{
  ℕ, zero, suc, ◌+◌, ◌^◌, ◌≤◌, ◌<◌, ◌≡◌, ◌≢◌, refl, false, some, inl, inr, arith, ◌∙◌,
}
use native.Mathlib.Nat.{add-zero}
use stable_genius.Common.Int.{ℤ, pos, negsuc}
use stable_genius.Text.{Memory}
use stable_genius.Text.Numbers.{itoa}
use stable_genius.Text.Numbers.Digits.{digit_value, digit_value-digit}
use stable_genius.Text.Numbers.Print.{read, uitoa-Prints, itoa-Prints}
use stable_genius.Text.Numbers.Digits
use stable_genius.Text.Parse.{
  is_space, char_digit, sign, strtoull, conclude_ll, signed_part, strtoll, clip_long, strtol, atoi,
}
use stable_genius.Text.Parse.Chars.{
  digit_no_space, digit_no_sign, char_digit-digit, end_char, minus_no_space,
}
use stable_genius.Text.Parse.Digits.{IsNumeral, value, char_value}
use stable_genius.Text.Parse.Unsigned.{at_text, sign-none, strtoull-reads}

module _ (m : Memory) (p n : ℕ) (shown : (k : ℕ) → k < n → Digits.IsDigit 10 (m (p + k))) where
  char_at : (k : ℕ) → k < n → (d : ℕ) × (char_digit (m (p + k)) ≡ some d) × (d < 10)
  char_at k h = let (d, e, small) = shown k h in (d, rw e (char_digit-digit d (omega arith)), small)

  -- Printed digits count for what they read as.
  value-read : (i : ℕ) → i ≤ n → value 10 m p i ≡ read 10 m p i
  unfolding value read char_value
  value-read zero h = refl
  value-read (suc i) h =
      let (d, e, small) = shown i (omega arith) in
      let counts = char_digit-digit d (omega arith) in
      let reads = (digit_value-digit d (omega arith)).0 in
      rw (value-read i (omega arith), e, reads) (ground (arith, counts))

  printed-IsNumeral : m (p + n) ≡ 0 → IsNumeral 10 m p n
  printed-IsNumeral end = record {
    low = omega arith;
    high = omega arith;
    digits = char_at;
    stop = inl (rw end end_char);
  }

  -- What `strtoull` reads of them, up to the cutoff
  strtoull-printed :
      (v : ℕ)
      → read 10 m p n ≡ v
      → m (p + n) ≡ 0
      → 1 ≤ n
      → n ≤ 64
      → v ≤ 2 ^ 31
      → (e : ℕ) × (strtoull p false (pos 10) m ≡ some (v, e))
  strtoull-printed v reads end some' short small =
      let (e, eq, _) =
        strtoull-reads false 10 p n m (printed-IsNumeral end) some' (omega arith)
          (inr (omega arith)) in
      let same : value 10 m p n ≡ v = value-read n (omega arith) ∙ reads in
      (e, eq ∙ ground (arith, same, small))

  starts : 1 ≤ n → (is_space (m p) ≡ false) × (m p ≢ b'+') × (m p ≢ b'-')
  starts some' =
      let (d, shows, small) = char_at 0 (omega arith) in
      let at : char_digit (m p) ≡ some d = rw add-zero at shows in
      let (no_plus, no_minus) = digit_no_sign (m p) d at in
      (digit_no_space (m p) d at, no_plus, no_minus)

-- The range of an `int`
abbrev pub IsInt : ℤ → Type 0
IsInt (pos n) = n < 2 ^ 31
IsInt (negsuc n) = n < 2 ^ 31

-- What `atoi` makes of a text without and with a minus sign
atoi-plain :
    (p v e : ℕ) (m : Memory)
    → is_space (m p) ≡ false
    → m p ≢ b'+'
    → m p ≢ b'-'
    → v < 2 ^ 31
    → strtoull p false (pos 10) m ≡ some (v, e)
    → atoi p m ≡ some (pos v)
unfolding atoi strtol strtoll signed_part conclude_ll clip_long
atoi-plain p v e m h no_plus no_minus small eq =
    ground (arith, at_text p m h, sign-none p m no_plus no_minus, h, eq, small)

atoi-minus :
    (p v e : ℕ) (m : Memory)
    → m p ≡ b'-'
    → is_space (m (p + 1)) ≡ false
    → v < 2 ^ 31
    → strtoull (p + 1) false (pos 10) m ≡ some (v + 1, e)
    → atoi p m ≡ some (negsuc v)
unfolding atoi strtol strtoll signed_part conclude_ll clip_long sign
atoi-minus p v e m minus h small eq =
    let first : is_space (m p) ≡ false = rw minus minus_no_space in
    ground (arith, at_text p m first, minus, h, eq, small)

-- `atoi` reads back every `int` that `itoa` prints in base 10: both calls end, and the number read is
-- the number printed. It asks for a buffer that is not null.
pub atoi-itoa :
    (z : ℤ) (buffer : ℕ) (m : Memory)
    → IsInt z
    → buffer ≢ 0
    → (m' : Memory) × (itoa z buffer 10 m ≡ some m') × (atoi buffer m' ≡ some z)
atoi-itoa (pos v) buffer m small at =
    let (m', n, e, p, some', short) =
      uitoa-Prints v buffer 10 m at (omega arith) (omega arith) (omega arith) in
    let same = (itoa-Prints v buffer 10 m at (omega arith) (omega arith) (omega arith)).0 in
    let (end, eq) =
      strtoull-printed m' buffer n p.digits v p.reads p.text.end some' short (omega arith) in
    let (space, no_plus, no_minus) = starts m' buffer n p.digits some' in
    (m', same ∙ e, atoi-plain buffer v end m' space no_plus no_minus small eq)
atoi-itoa (negsuc v) buffer m small at =
    let (_, m', n, e, text, minus, shown, reads, some', short, _, _) =
      itoa-Prints v buffer 10 m at (omega arith) (omega arith) (omega arith) in
    let behind : buffer + 1 + n ≡ buffer + (n + 1) = omega arith in
    let (end, eq) =
      strtoull-printed m' (buffer + 1) n shown (v + 1) reads (rw behind text.end) some' short
        (omega arith) in
    let (space, _, _) = starts m' (buffer + 1) n shown some' in
    (m', e, atoi-minus buffer v end m' minus space small eq)
