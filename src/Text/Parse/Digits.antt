-- ===== src/Text/Parse/Digits.antt =====
-- The digit loop of `strtoull` on a run of digits: the value that it gathers, and where it stops.
use stable_genius.Common.{
  ℕ, zero, suc, ◌+◌, ◌-◌, ◌*◌, ◌/◌, ◌%◌, ◌^◌, ◌≤◌, ◌<◌, ◌≡◌, refl, true, false, none, some, ◌⊎◌,
  ltb, arith,
}
use native.Mathlib.Nat.{div-add-mod, mod-lt}
use native.Mathlib.Decide.{dec_le}
use stable_genius.Text.{Memory}
use stable_genius.Text.Parse.{ull_max, char_digit, accumulate}

-- What a character counts for in a number
unfoldable pub char_value : ℕ → ℕ
char_value c = elim (char_digit c) [ none ↦ 0 | some d ↦ d ]

-- The number that `n` characters stand for.
unfoldable pub value : (base : ℕ) → Memory → (p n : ℕ) → ℕ
value base m p zero = 0
value base m p (suc n) = value base m p n * base + char_value (m (p + n))

abbrev pub IsDigit : (base c : ℕ) → Type 0
IsDigit base c = (d : ℕ) × (char_digit c ≡ some d) × (d < base)

-- A run of digits in a base that goes no further.
pub record IsNumeral (base : ℕ) (m : Memory) (p n : ℕ) : Type 0 where
  pub low : 2 ≤ base
  pub high : base ≤ 36
  pub digits : (k : ℕ) → k < n → IsDigit base (m (p + k))
  pub stop :
      (char_digit (m (p + n)) ≡ none) ⊎ ((d : ℕ) × (char_digit (m (p + n)) ≡ some d) × (base ≤ d))

pub value_mono :
    (base : ℕ) (m : Memory) (p i j : ℕ) → 1 ≤ base → value base m p i ≤ value base m p (i + j)
unfolding value
value_mono base m p i zero h = let e : i + 0 ≡ i = omega arith in rw e (omega arith)
value_mono base m p i (suc j) h =
    let ih = value_mono base m p i j h in
    let e : i + suc j ≡ suc (i + j) = omega arith in rw e (grind arith)

lt_product_of_quotient : (c b v : ℕ) → 0 < b → c / b < v → c < v * b
lt_product_of_quotient c b v h lt =
    let split = div-add-mod c b in
    let rest : c % b < b = mod-lt c (omega arith) in
    let wide : (c / b + 1) * b ≤ v * b = grind arith in grind arith

le_quotient : (c b v : ℕ) → 0 < b → v * b ≤ c → v ≤ c / b
le_quotient c b v h le = elim (dec_le v (c / b)) [
  | yes p ↦ p
  | no p ↦ absurd (omega (arith, lt_product_of_quotient c b v h (omega arith)))
]

-- Below the cutoff the test for overflow is exact.
module _ (base d v : ℕ) (low : 2 ≤ base) (high : base ≤ 36) (small : d < base)
    (below : v ≤ ull_max / base) where
  abbrev cutoff : ℕ
  cutoff = ull_max / base

  product : v * base ≤ ull_max
  product =
      let split = div-add-mod ull_max base in
      let wide : v * base ≤ cutoff * base = grind arith in grind arith

  narrow : cutoff ≤ ull_max
  narrow =
      let split = div-add-mod ull_max base in
      let wide : cutoff * 1 ≤ cutoff * base = grind arith in omega (arith, split, wide)

  wide_cutoff : d ≤ cutoff
  wide_cutoff =
      let split = div-add-mod ull_max base in
      let rest : ull_max % base < base = mod-lt ull_max (omega arith) in
      let wide : base * cutoff ≤ 36 * cutoff = grind arith in omega (arith, split, rest, wide)

  pub accumulate-fits :
      (e : ℕ)
      → v * base + d ≤ cutoff
      → accumulate base cutoff d (record { endptr = e; accum = v; overflow = false })
        ≡ record { endptr = e; accum = v * base + d; overflow = false }
  unfolding accumulate
  accumulate-fits e h =
      let all = product in
      let one : ltb (cutoff / base) v ≡ false =
        ground (arith, le_quotient cutoff base v (omega arith) (omega arith)) in
      let same : v * base % 2 ^ 64 ≡ v * base = omega arith in
      let sum : (v * base + d) % 2 ^ 64 ≡ v * base + d = omega (arith, h, narrow) in
      let two : ltb (cutoff - d) (v * base) ≡ false = ground (arith, h) in
      rw (one, same, two, sum) refl

  pub accumulate-over :
      (e : ℕ)
      → cutoff < v * base + d
      → accumulate base cutoff d (record { endptr = e; accum = v; overflow = false })
        ≡ record { endptr = e; accum = cutoff; overflow = true }
  unfolding accumulate
  accumulate-over e h =
      let all = product in
      let room = wide_cutoff in
      let same : v * base % 2 ^ 64 ≡ v * base = omega arith in
      let two : ltb (cutoff - d) (v * base) ≡ true = ground (arith, h) in
      rw (same, two) (ground arith)
