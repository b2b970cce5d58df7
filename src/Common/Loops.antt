-- ===== src/Common/Loops.antt =====
-- Counted loops that break at the first hit.
use Prim.Native.Nat.{ℕ, zero, suc, ◌+◌, ◌≤◌, ◌<◌}
use mathlib.Core.Path.{◌≡◌, refl}
use mathlib.Core.Logic.{inl, inr}
use mathlib.Core.Bool.{Bool, true, false}
use mathlib.Core.Option.{Option, none, some}
use native.Mathlib.Omega.{arith}
use native.Mathlib.Decide.{dec_lt}
use stable_genius.Common.Tests.{if◌then◌else◌, Bool-cases}

-- `for (i = start; i < start + rounds; ++i) if (p(i)) break;`: the index at which it broke.
unfoldable pub first_from : (ℕ → Bool) → (rounds start : ℕ) → Option ℕ
first_from p zero i = none
first_from p (suc n) i = let rest = first_from p n (i + 1) in if p i then some i else rest

-- Where such a search breaks: the first index of the range that passes the test.
pub record IsFirst (p : ℕ → Bool) (n i t : ℕ) : Type 0 where
  pub above : i ≤ t
  pub below : t < i + n
  pub hit : p t ≡ true
  pub missed : (j : ℕ) → i ≤ j → j < t → p j ≡ false

pub first_from-IsFirst :
    (p : ℕ → Bool) (n i : ℕ) {t : ℕ} → first_from p n i ≡ some t → IsFirst p n i t
unfolding first_from
first_from-IsFirst p zero i e = absurd (ground arith)
first_from-IsFirst p (suc n) i {t} e = elim (Bool-cases (p i)) [
  | inl h ↦
      let same : i ≡ t = ground arith in
      record {
        above = omega arith;
        below = omega arith;
        hit = ground (arith, h);
        missed = λ j a b. absurd (omega arith);
      }
  | inr h ↦
      let rec = first_from-IsFirst p n (i + 1) {t = t} (ground arith) in
      record {
        above = omega (arith, rec.above);
        below = omega (arith, rec.below);
        hit = rec.hit;
        missed = λ j a b. elim (dec_lt i j) [
          | yes q ↦ rec.missed j (omega arith) b
          | no q ↦ let same : i ≡ j = omega arith in ground (arith, h)
        ];
      }
]

pub first_from-eq-some : (p : ℕ → Bool) (n i t : ℕ) → IsFirst p n i t → first_from p n i ≡ some t
unfolding first_from
first_from-eq-some p zero i t f = absurd (omega arith)
first_from-eq-some p (suc n) i t f = elim (dec_lt i t) [
  | yes q ↦
      let miss : p i ≡ false = f.missed i (omega arith) q in
      rw miss (
        first_from-eq-some p n (i + 1) t (record {
          above = omega arith;
          below = omega (arith, f.below);
          hit = f.hit;
          missed = λ j a b. f.missed j (omega arith) b;
        }))
  | no q ↦ let same : i ≡ t = omega (arith, f.above) in ground (arith, f.hit)
]

pub first_from-eq-none :
    (p : ℕ → Bool) (n i : ℕ) → ((j : ℕ) → i ≤ j → j < i + n → p j ≡ false) → first_from p n i ≡ none
unfolding first_from
first_from-eq-none p zero i h = refl
first_from-eq-none p (suc n) i h =
    let here : p i ≡ false = h i (omega arith) (omega arith) in
    rw here (first_from-eq-none p n (i + 1) λ j a b. h j (omega arith) (omega arith))

pub first_from-none :
    (p : ℕ → Bool) (n i j : ℕ) → first_from p n i ≡ none → i ≤ j → j < i + n → p j ≡ false
unfolding first_from
first_from-none p zero i j e a b = absurd (omega arith)
first_from-none p (suc n) i j e a b = elim (dec_lt i j) [
  | yes q ↦ first_from-none p n (i + 1) j (ground arith) (omega arith) (omega arith)
  | no q ↦ let same : i ≡ j = omega arith in ground arith
]
