-- ===== src/Text/Numbers/Reverse.antt =====
-- `reverse` turns a string round, byte for byte.
use stable_genius.Common.{
  ℕ, zero, suc, ◌+◌, ◌-◌, ◌*◌, ◌^◌, ◌≤◌, ◌<◌, ◌≡◌, refl, ◌&&◌, some, ◌==◌, ltb, leb, if◌then◌else◌,
  arith, Bool-cases, inl, inr, first_from-eq-some,
}
use stable_genius.Text.{Memory, write, strlen, IsString}
use stable_genius.Text.Numbers.{reverse_loop, reverse}

-- `strlen` of a string is its length.
pub strlen_lem : (m : Memory) (str len : ℕ) → IsString m str len → strlen m str ≡ some len
unfolding strlen
strlen_lem m str len s =
    first_from-eq-some (λ i. m (str + i) == 0) (2 ^ 32) 0 len
      (record {
        above = omega arith;
        below = s.fits;
        hit = ground (arith, s.end);
        missed = λ j a b. ground (arith, s.chars j b);
      })

-- Where the positions have met there is nothing to turn round.
met :
    (m : Memory) (str i j k : ℕ)
    → j ≤ i
    → m (str + k) ≡ (if leb i k && leb k j then m (str + (i + j - k)) else m (str + k))
met m str i j k h = elim (Bool-cases (leb i k && leb k j)) [
  | inl mid ↦ let e : i + j - k ≡ k = ground (arith, mid, h) in rw (mid, e) refl
  | inr out ↦ rw out refl
]

reverse_loop_lem :
    (n str i j : ℕ) (m : Memory) (k : ℕ)
    → j - i ≤ 2 * n
    → reverse_loop n str i j m (str + k)
      ≡ (if leb i k && leb k j then m (str + (i + j - k)) else m (str + k))
unfolding reverse_loop write
reverse_loop_lem zero str i j m k h = met m str i j k (omega (arith, h))
reverse_loop_lem (suc n) str i j m k h =
    let m' = write (str + j) (m (str + i)) (write (str + i) (m (str + j)) m) in
    let ih = reverse_loop_lem n str (i + 1) (j - 1) m' k (omega (arith, h)) in
    elim (Bool-cases (ltb i j)) [
      | inr over ↦ rw over (met m str i j k (ground (arith, over)))
      | inl more ↦
          let e : i + 1 + (j - 1) - k ≡ i + j - k = ground (arith, more) in
          ground (arith, ih, more, e)
    ]

reverse_loop_outside :
    (n str i j : ℕ) (m : Memory) (x : ℕ) → x < str → reverse_loop n str i j m x ≡ m x
unfolding reverse_loop write
reverse_loop_outside zero str i j m x h = refl
reverse_loop_outside (suc n) str i j m x h =
    let m' = write (str + j) (m (str + i)) (write (str + i) (m (str + j)) m) in
    ground (arith, h, reverse_loop_outside n str (i + 1) (j - 1) m' x)

-- `reverse` of a string ends; it turns the string round and leaves the bytes before it and from its
-- end on as they are.
pub record Reversed (m m' : Memory) (str len : ℕ) : Type 0 where
  pub turned : (k : ℕ) → k < len → m' (str + k) ≡ m (str + (len - 1 - k))
  pub behind : (k : ℕ) → len ≤ k → m' (str + k) ≡ m (str + k)
  pub before : (x : ℕ) → x < str → m' x ≡ m x

pub reverse-Reversed :
    (m : Memory) (str len : ℕ)
    → IsString m str len
    → (m' : Memory) × (reverse str m ≡ some m') × Reversed m m' str len
unfolding reverse
reverse-Reversed m str len s =
    let e = strlen_lem m str len s in
    let at = λ (k : ℕ). reverse_loop_lem len str 0 (len - 1) m k (omega arith) in
    (
      reverse_loop len str 0 (len - 1) m,
      ground (arith, e),
      record {
        turned = λ k h. ground (arith, at k, h);
        behind = λ k h. elim (Bool-cases (len == 0)) [
          | inl none' ↦
              let z : len ≡ 0 = ground (arith, none') in rw z (unfold reverse_loop in refl)
          | inr some' ↦ ground (arith, at k, h, some')
        ];
        before = λ x h. reverse_loop_outside len str 0 (len - 1) m x h;
      },
    )
