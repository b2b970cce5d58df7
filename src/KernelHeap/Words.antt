-- ===== src/KernelHeap/Words.antt =====
-- Aligned addresses: multiples of a power of two among the 32-bit words.
use stable_genius.Common.{
  ℕ, zero, suc, ◌+◌, ◌-◌, ◌*◌, ◌/◌, ◌%◌, ◌^◌, ◌≤◌, ◌<◌, ◌≡◌, refl, ltb, arith, if◌then◌else◌, ◌∙◌,
}
use native.Mathlib.Nat.{div-add-mod, mod-lt}
use native.Mathlib.Decide.{dec_le}
use stable_genius.UserHeap.{add32, sub32}
use stable_genius.KernelHeap.{power_loop, align_power, round_up}

abbrev pub Multiple : (d a : ℕ) → Type 0
Multiple d a = (k : ℕ) × (a ≡ k * d)

mul_mono : (a b d : ℕ) → a ≤ b → a * d ≤ b * d
mul_mono a b d h = grind arith

add_mul : (a b d : ℕ) → (a + b) * d ≡ a * d + b * d
add_mul a b d = grind arith

-- The remainder of a multiple by a multiple
remainder : (k t d a r : ℕ) → 0 < d → a ≡ k * d → t * d + r ≡ a → Multiple d r
remainder k t d a r some' e split = elim (dec_le t k) [
  | yes p ↦
      let parts = add_mul (k - t) t d in
      let whole : k - t + t ≡ k = omega arith in
      let parts' : k * d ≡ (k - t) * d + t * d = rw whole at parts in
      (k - t, omega (arith, parts', e, split))
  | no p ↦
      let wide = mul_mono (k + 1) t d (omega arith) in
      let parts = add_mul k 1 d in absurd (omega (arith, wide, parts, e, split, some'))
]

mod-Multiple : (a n d : ℕ) → 0 < d → Multiple d a → Multiple d n → Multiple d (a % n)
mod-Multiple a n d some' (ka, ea) (kn, en) =
    let split : n * (a / n) + a % n ≡ a = div-add-mod a n in
    let whole : n * (a / n) ≡ kn * (a / n) * d = grind arith in
    remainder ka (kn * (a / n)) d a (a % n) some' ea (omega (arith, split, whole))

power-Multiple : (p q : ℕ) → Multiple (2 ^ p) (2 ^ (p + q))
power-Multiple p zero = let e : p + 0 ≡ p = omega arith in (1, rw e (omega arith))
power-Multiple p (suc q) =
    let (k, ih) = power-Multiple p q in
    let e : p + suc q ≡ suc (p + q) = omega arith in
    let double : 2 ^ suc (p + q) ≡ 2 * 2 ^ (p + q) = omega arith in
    (2 * k, rw (e, double, ih) (grind arith))

pub power-pos : (p : ℕ) → 0 < 2 ^ p
power-pos zero = omega arith
power-pos (suc p) =
    let double : 2 ^ suc p ≡ 2 * 2 ^ p = omega arith in omega (arith, power-pos p, double)

-- `round_up` gives a multiple, at or above the word and less than the alignment away.
pub round_up-Multiple : (p s : ℕ) → p ≤ 32 → Multiple (2 ^ p) (round_up p s)
unfolding round_up
round_up-Multiple p s h =
    let (k, e) = power-Multiple p (32 - p) in
    let sum : p + (32 - p) ≡ 32 = omega arith in
    mod-Multiple _ (2 ^ 32) (2 ^ p) (power-pos p) (sub32 s 1 / 2 ^ p + 1, refl) (k, rw sum at e)

pub round_up-lt : (p s : ℕ) → round_up p s < 2 ^ 32
unfolding round_up
round_up-lt p s = omega arith

pub round_up-le :
    (p s : ℕ) → 1 ≤ s → s + 2 ^ p ≤ 2 ^ 32 → (s ≤ round_up p s) × (round_up p s < s + 2 ^ p)
unfolding round_up
round_up-le p s some' h =
    let power' = power-pos p in
    let one : (s + 2 ^ 32 - 1) % 2 ^ 32 ≡ s - 1 = omega arith in
    let q = (s - 1) / 2 ^ p in
    let split : 2 ^ p * q + (s - 1) % 2 ^ p ≡ s - 1 = div-add-mod (s - 1) (2 ^ p) in
    let rest : (s - 1) % 2 ^ p < 2 ^ p = mod-lt (s - 1) power' in
    let next : (q + 1) * 2 ^ p ≡ 2 ^ p * q + 2 ^ p = grind arith in
    let fits : (q + 1) * 2 ^ p < 2 ^ 32 = omega (arith, split, rest, next) in
    let same : (q + 1) * 2 ^ p % 2 ^ 32 ≡ (q + 1) * 2 ^ p = omega (arith, fits) in
    rw (one, same) (omega (arith, split, rest, next), omega (arith, split, rest, next))

-- The way back from the data of a block to its header, and forth again
pub add32-sub32 : (a d : ℕ) → a < 2 ^ 32 → d < 2 ^ 32 → add32 (sub32 a d) d ≡ a
add32-sub32 a d h k = omega arith

-- The power that is found of a power of two
power_loop-power : (n k : ℕ) → k < n → power_loop n (2 ^ k) ≡ k
unfolding power_loop
power_loop-power zero k h = absurd (omega arith)
power_loop-power (suc n) zero h = refl
power_loop-power (suc n) (suc k) h =
    let half : 2 ^ suc k / 2 ≡ 2 ^ k = omega arith in
    let ih = power_loop-power n k (omega arith) in
    let some' = power-pos k in rw half (ground (arith, ih, some'))

pub align_power-power : (k : ℕ) → k < 32 → align_power (2 ^ k) ≡ (if ltb k 4 then 4 else k)
unfolding align_power
align_power-power k h = rw (power_loop-power 32 k h) refl

-- A multiple of a power of two is one of each lower power.
pub Multiple-lower : (p q a : ℕ) → p ≤ q → Multiple (2 ^ q) a → Multiple (2 ^ p) a
Multiple-lower p q a h (k, e) =
    let (j, f) = power-Multiple p (q - p) in
    let sum : p + (q - p) ≡ q = omega arith in
    let g : 2 ^ q ≡ j * 2 ^ p = rw sum at f in (k * j, e ∙ rw g (grind arith))
