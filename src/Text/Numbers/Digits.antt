-- ===== src/Text/Numbers/Digits.antt =====
-- The digits of a value, and what they read back as.
use stable_genius.Common.{
  ℕ, zero, suc, ◌+◌, ◌-◌, ◌*◌, ◌/◌, ◌%◌, ◌^◌, ◌≤◌, ◌<◌, ◌≡◌, ◌≢◌, refl, some, ◌==◌, leb,
  if◌then◌else◌, arith, Bool-cases, inl, inr, ◌∙◌, sym,
}
use native.Mathlib.Nat.{add-zero, div-add-mod, mod-lt}
use stable_genius.Text.{Memory, write}
use stable_genius.Text.Numbers.{digit, digits_loop}

-- What a digit stands for.
unfoldable pub digit_value : ℕ → ℕ
digit_value c = if leb c b'9' then c - b'0' else c - b'A' + 10

-- The number that the bytes from an address on stand for, the least digit first.
unfoldable pub read_reversed : (radix : ℕ) → Memory → (p n : ℕ) → ℕ
read_reversed radix m p zero = 0
read_reversed radix m p (suc n) = digit_value (m p) + radix * read_reversed radix m (p + 1) n

pub digit_value-digit : (d : ℕ) → d < 36 → (digit_value (digit d) ≡ d) × (digit d ≢ 0)
unfolding digit_value
digit_value-digit d h = (ground arith, ground arith)

-- Reading looks at its bytes only.
pub read_reversed_same :
    (radix : ℕ) (m g : Memory) (p n : ℕ)
    → ((k : ℕ) → k < n → g (p + k) ≡ m (p + k))
    → read_reversed radix g p n ≡ read_reversed radix m p n
unfolding read_reversed
read_reversed_same radix m g p zero h = refl
read_reversed_same radix m g p (suc n) h =
    let first : g p ≡ m p = rw add-zero at (h 0 (omega arith)) in
    let rest =
      read_reversed_same radix m g (p + 1) n
        λ k a. let e : p + 1 + k ≡ p + (k + 1) = omega arith in rw e (h (k + 1) (omega arith)) in
    rw (first, rest) refl

-- A character that is a digit of a radix
abbrev pub IsDigit : (radix c : ℕ) → Type 0
IsDigit radix c = (d : ℕ) × (c ≡ digit d) × (d < radix)

-- What the loop does from position `i` on: the digits of the value, and nothing else.
pub record Digits (radix value buffer i : ℕ) (m g : Memory) (n : ℕ) : Type 0 where
  pub ordered : i ≤ n
  pub reads : read_reversed radix g (buffer + i) (n - i) ≡ value
  pub visible : (k : ℕ) → i ≤ k → k < n → g (buffer + k) ≢ 0
  pub shown : (k : ℕ) → i ≤ k → k < n → IsDigit radix (g (buffer + k))
  pub below : (x : ℕ) → x < buffer + i → g x ≡ m x
  pub above : (k : ℕ) → n ≤ k → g (buffer + k) ≡ m (buffer + k)

quotient_lt : (radix value f : ℕ) → 2 ≤ radix → value < 2 ^ suc f → value / radix < 2 ^ f
quotient_lt radix value f low h =
    let split = div-add-mod value radix in
    let wide : 2 * (value / radix) ≤ radix * (value / radix) = grind arith in
    let power : 2 ^ suc f ≡ 2 * 2 ^ f = omega arith in omega (arith, split, wide, power)

no-Digits : (radix buffer i : ℕ) (m : Memory) → Digits radix 0 buffer i m m i
unfolding read_reversed
no-Digits radix buffer i m = record {
  ordered = omega arith;
  reads = let e : i - i ≡ 0 = omega arith in rw e refl;
  visible = λ k a b. absurd (omega arith);
  shown = λ k a b. absurd (omega arith);
  below = λ x h. refl;
  above = λ k h. refl;
}

module _ (buffer radix : ℕ) (low : 2 ≤ radix) (high : radix ≤ 36) where
  -- A digit in front of those of the quotient
  more-Digits :
      (value i : ℕ) (m g : Memory) (n : ℕ)
      → Digits radix
          (value / radix)
          buffer
          (i + 1)
          (write (buffer + i) (digit (value % radix)) m)
          g
          n
      → Digits radix value buffer i m g n
  unfolding read_reversed write
  more-Digits value i m g n d =
      let small : value % radix < radix = mod-lt value (omega arith) in
      let (back, shows) = digit_value-digit (value % radix) (omega (arith, small)) in
      let here : g (buffer + i) ≡ digit (value % radix) =
        d.below (buffer + i) (omega arith) ∙ ground arith in
      let e : n - i ≡ suc (n - (i + 1)) = omega (arith, d.ordered) in
      let e' : buffer + (i + 1) ≡ buffer + i + 1 = omega arith in
      record {
        ordered = omega (arith, d.ordered);
        reads = rw (e, here, back, ← e', d.reads) (omega (arith, div-add-mod value radix));
        visible = λ k a b. elim (Bool-cases (k == i)) [
          | inl same ↦ let s : k ≡ i = ground (arith, same) in rw (s, here) shows
          | inr other ↦ d.visible k (ground (arith, a, other)) b
        ];
        shown = λ k a b. elim (Bool-cases (k == i)) [
          | inl same ↦ let s : k ≡ i = ground (arith, same) in (value % radix, rw s here, small)
          | inr other ↦ d.shown k (ground (arith, a, other)) b
        ];
        below = λ x h. d.below x (omega (arith, h)) ∙ ground (arith, h);
        above = λ k h. d.above k h ∙ ground (arith, h, d.ordered);
      }

  pub digits_loop-Digits :
      (f value i : ℕ) (m : Memory)
      → value < 2 ^ f
      → (g : Memory) × (n : ℕ) × (digits_loop (suc f) value buffer radix i m ≡ some (g, n))
        × Digits radix value buffer i m g n
        × (n ≤ i + f)
  unfolding digits_loop
  digits_loop-Digits zero value i m h =
      let e : value ≡ 0 = omega arith in
      (m, i, rw e refl, rw e (no-Digits radix buffer i m), omega arith)
  digits_loop-Digits (suc f) value i m h = elim (Bool-cases (value == 0)) [
    | inl over ↦
        let e : value ≡ 0 = ground (arith, over) in
        (m, i, rw over refl, rw e (no-Digits radix buffer i m), omega arith)
    | inr more ↦
        let m' = write (buffer + i) (digit (value % radix)) m in
        let (g, n, e, d, short) =
          digits_loop-Digits f (value / radix) (i + 1) m' (quotient_lt radix value f low h) in
        (g, n, rw more e, more-Digits value i m g n d, omega (arith, short))
  ]

-- The digits of 0, and the number of digits of any other value
pub zero_digit :
    (radix buffer : ℕ) (m : Memory) → 2 ≤ radix → Digits radix 0 buffer 0 m (write buffer b'0' m) 1
unfolding read_reversed write digit_value
zero_digit radix buffer m low = record {
  ordered = omega arith;
  reads = ground arith;
  visible = λ k a b. ground (arith, b);
  shown = λ k a b. (0, ground (arith, b), omega arith);
  below = λ x h. ground (arith, h);
  above = λ k h. ground (arith, h);
}

pub some-Digits :
    (radix value buffer : ℕ) (m g : Memory) (n : ℕ)
    → Digits radix value buffer 0 m g n
    → value ≢ 0
    → 1 ≤ n
unfolding read_reversed
some-Digits radix value buffer m g zero d h = absurd (h (sym d.reads))
some-Digits radix value buffer m g (suc n) d h = omega arith
