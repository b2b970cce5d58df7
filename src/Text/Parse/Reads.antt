-- ===== src/Text/Parse/Reads.antt =====
-- What `strtoull` makes of a run of digits. The digit loop stops behind the run; it overflows where
-- the number exceeds the cutoff, which is the largest value divided by the base.
use stable_genius.Common.{
  ℕ, zero, suc, ◌+◌, ◌*◌, ◌/◌, ◌≤◌, ◌<◌, ◌≡◌, refl, Bool, true, false, none, some, ◌⊎◌, inl, inr,
  arith, Bool-cases, sym, ◌∙◌, if◌then◌else◌,
}
use native.Mathlib.Decide.{dec_le}
use stable_genius.Text.{Memory}
use stable_genius.Text.Parse.{Progress, ull_max, char_digit, accumulate, digit_loop}
use stable_genius.Text.Parse.Digits.{
  IsNumeral, value, value_mono, char_value, accumulate-fits, accumulate-over,
}

-- The outcome of the loop: the value or an overflow, and the end where it is asked for.
pub record Outcome (has_end : Bool) (base total behind : ℕ) (s : Progress) : Type 0 where
  pub exact : total ≤ ull_max / base → (s.overflow ≡ false) × (s.accum ≡ total)
  pub clipped : ull_max / base < total → s.overflow ≡ true
  pub end : has_end ≡ true → s.endptr ≡ behind

-- One round at a digit, and at what is none.
module _ (has_end : Bool) (base c f ptr : ℕ) (s : Progress) (m : Memory) where
  abbrev advanced : Progress
  advanced = record s { endptr = ptr + 1 }

  loop-digit :
      (d : ℕ)
      → char_digit (m ptr) ≡ some d
      → d < base
      → s.overflow ≡ false
      → digit_loop has_end base c (suc f) ptr s m
        ≡ digit_loop has_end base c f (ptr + 1) (accumulate base c d advanced) m
  unfolding digit_loop
  loop-digit d shows small o = ground (arith, shows, small, o)

  loop-overflown :
      (d : ℕ)
      → char_digit (m ptr) ≡ some d
      → d < base
      → s.overflow ≡ true
      → digit_loop has_end base c (suc f) ptr s m
        ≡ (if has_end then digit_loop has_end base c f (ptr + 1) advanced m else some advanced)
  unfolding digit_loop
  loop-overflown d shows small o = ground (arith, shows, small, o)

  loop-stop :
      (char_digit (m ptr) ≡ none) ⊎ ((d : ℕ) × (char_digit (m ptr) ≡ some d) × (base ≤ d))
      → digit_loop has_end base c (suc f) ptr s m ≡ some s
  unfolding digit_loop
  loop-stop (inl h) = ground (arith, h)
  loop-stop (inr (d, e, large)) = ground (arith, e, large)

module _ (has_end : Bool) (base : ℕ) (m : Memory) (p n : ℕ) (num : IsNumeral base m p n) where
  abbrev cutoff : ℕ
  cutoff = ull_max / base

  -- The rounds behind an overflow
  overflown :
      (j i f e : ℕ)
      → i + j ≡ n
      → j < f
      → (e ≡ p + i) ⊎ (0 < j)
      → (s : Progress) × (digit_loop has_end base cutoff f
            (p + i)
            (record { endptr = e; accum = cutoff; overflow = true })
            m
          ≡ some s)
        × (s.overflow ≡ true)
        × (has_end ≡ true → s.endptr ≡ p + n)
  overflown j i zero e sum h ends = absurd (omega arith)
  overflown zero i (suc f) e sum h ends =
      let e' : i ≡ n = omega arith in
      (
        record { endptr = e; accum = cutoff; overflow = true },
        rw e' (loop-stop has_end base cutoff f (p + n) _ m num.stop),
        refl,
        λ _. ground (arith, ends, e'),
      )
  overflown (suc j) i (suc f) e sum h ends =
      let (d, shows, small) = num.digits i (omega arith) in
      let round =
        loop-overflown has_end base cutoff f (p + i)
          (record { endptr = e; accum = cutoff; overflow = true }) m d shows small refl in
      let at : p + (i + 1) ≡ p + i + 1 = omega arith in
      let (s, eq, o, end) =
        overflown j (i + 1) f (p + i + 1) (omega arith) (omega arith) (inl (omega arith)) in
      elim (Bool-cases has_end) [
        | inl yes' ↦ (s, round ∙ ground (arith, yes', eq, at), o, end)
        | inr no' ↦ (
          record { endptr = p + i + 1; accum = cutoff; overflow = true },
          round ∙ ground (arith, no'),
          refl,
          λ y. absurd (ground (arith, y, no')),
        )
      ]

  pub run :
      (j i f e : ℕ)
      → i + j ≡ n
      → j < f
      → (e ≡ p + i) ⊎ (0 < j)
      → value base m p i ≤ cutoff
      → (s : Progress) × (digit_loop has_end base cutoff f
            (p + i)
            (record { endptr = e; accum = value base m p i; overflow = false })
            m
          ≡ some s)
        × Outcome has_end base (value base m p n) (p + n) s
  unfolding value char_value
  run j i zero e sum h ends le = absurd (omega arith)
  run zero i (suc f) e sum h ends le =
      let e' : i ≡ n = omega arith in
      let le' : value base m p n ≤ cutoff = rw (sym e') le in
      (
        record { endptr = e; accum = value base m p i; overflow = false },
        rw e' (loop-stop has_end base cutoff f (p + n) _ m num.stop),
        record {
          exact = λ _. (refl, rw e' refl);
          clipped = λ lt. absurd (omega (arith, le', lt));
          end = λ _. ground (arith, ends, e');
        },
      )
  run (suc j) i (suc f) e sum h ends le =
      let (d, shows, small) = num.digits i (omega arith) in
      let v = value base m p i in
      let round =
        loop-digit has_end base cutoff f (p + i)
          (record { endptr = e; accum = v; overflow = false }) m d shows small refl in
      let at : p + (i + 1) ≡ p + i + 1 = omega arith in
      let next : value base m p (i + 1) ≡ v * base + d = ground (arith, shows) in
      elim (dec_le (v * base + d) cutoff) [
        | yes fits ↦
            let (s, eq, out) =
              run j (i + 1) f (p + i + 1) (omega arith) (omega arith) (inl (omega arith))
                (rw next fits) in
            let acc = accumulate-fits base d v num.low num.high small le (p + i + 1) fits in
            (s, round ∙ rw acc (rw (at, next) at eq), out)
        | no over ↦
            let (s, eq, o, end) =
              overflown j (i + 1) f (p + i + 1) (omega arith) (omega arith) (inl (omega arith)) in
            let acc =
              accumulate-over base d v num.low num.high small le (p + i + 1) (omega arith) in
            let grows = value_mono base m p (i + 1) j (omega (arith, num.low)) in
            let all : i + 1 + j ≡ n = omega arith in
            let grown : v * base + d ≤ value base m p n = rw (all, next) at grows in
            (
              s,
              round ∙ rw acc (rw at at eq),
              record {
                exact = λ fits. absurd (over (omega (arith, grown, fits)));
                clipped = λ _. o;
                end = end;
              },
            )
      ]
