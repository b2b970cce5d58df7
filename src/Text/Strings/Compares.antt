-- ===== src/Text/Strings/Compares.antt =====
-- `strcmp` tells whether two strings are the same.
use stable_genius.Common.{
  ℕ, zero, suc, ◌+◌, ◌^◌, ◌<◌, ◌≡◌, ◌≢◌, ◌↔◌, refl, some, ◌==◌, arith, Bool-cases, inl, inr,
}
use native.Mathlib.Nat.{add-zero}
use stable_genius.Common.Int.{ℤ, pos, sub_int}
use stable_genius.Text.{Memory, IsString}
use stable_genius.Text.Strings.{strcmp_loop, strcmp}

suc-ne-zero : {n : ℕ} → suc n ≢ 0
suc-ne-zero e = absurd (omega arith)

-- Two strings of the given lengths have the same characters.
abbrev pub SameText : Memory → (l r a b : ℕ) → Type 0
SameText m l r a b = (a ≡ b) × ((i : ℕ) → i < a → m (l + i) ≡ m (r + i))

IsString-tail : (m : Memory) (p n : ℕ) → IsString m p (suc n) → IsString m (p + 1) n
IsString-tail m p n s = record {
  end = let e : p + 1 + n ≡ p + suc n = omega arith in rw e s.end;
  chars =
      λ i h. let e : p + 1 + i ≡ p + suc i = omega arith in rw e (s.chars (suc i) (omega arith));
  fits = omega (arith, s.fits);
}

IsString-head : (m : Memory) (p n : ℕ) → IsString m p n → (m p ≡ 0) ↔ (n ≡ 0)
IsString-head m p zero s = (λ e. refl, λ e. rw add-zero at s.end)
IsString-head m p (suc n) s =
    (λ e. absurd (s.chars 0 (omega arith) (rw add-zero e)), λ e. absurd (omega arith))

first_and_rest :
    (m : Memory) (l r a : ℕ)
    → m l ≡ m r
    → ((i : ℕ) → i < a → m (l + 1 + i) ≡ m (r + 1 + i))
    → (i : ℕ) → i < suc a
    → m (l + i) ≡ m (r + i)
first_and_rest m l r a e h zero lt = rw (add-zero l, add-zero r) e
first_and_rest m l r a e h (suc i) lt =
    let e1 : l + 1 + i ≡ l + suc i = omega arith in
    let e2 : r + 1 + i ≡ r + suc i = omega arith in rw (← e1, ← e2) (h i (omega arith))

-- The same first character, and the same text behind it
SameText-step :
    (m : Memory) (l r a b : ℕ)
    → m l ≡ m r
    → SameText m (l + 1) (r + 1) a b ↔ SameText m l r (suc a) (suc b)
SameText-step m l r a b e = (
  λ s. (omega (arith, s.0), first_and_rest m l r a e s.1),
  λ s. (
    omega (arith, s.0),
    λ i h.
        let e1 : l + 1 + i ≡ l + suc i = omega arith in
        let e2 : r + 1 + i ≡ r + suc i = omega arith in rw (e1, e2) (s.1 (suc i) (omega arith)),
  ),
)

module _ (m : Memory) where
  strcmp_loop-SameText :
      (f l r a b : ℕ)
      → a < f
      → IsString m l a
      → IsString m r b
      → (z : ℤ) × (strcmp_loop f l r m ≡ some z) × ((z ≡ pos 0) ↔ SameText m l r a b)
  unfolding strcmp_loop
  strcmp_loop-SameText zero l r a b h s t = absurd (omega arith)
  strcmp_loop-SameText (suc f) l r zero b h s t =
      let ends = (IsString-head m l 0 s).1 refl in
      let head = IsString-head m r b t in
      (
        sub_int (m l) (m r),
        ground (arith, ends),
        (
          λ e. (ground (arith, e, ends, head), λ i a. absurd (omega arith)),
          λ e. ground (arith, e.0, ends, head),
        ),
      )
  strcmp_loop-SameText (suc f) l r (suc a) zero h s t =
      let ends = (IsString-head m r 0 t).1 refl in
      let more' : m l ≢ 0 = λ e. suc-ne-zero ((IsString-head m l (suc a) s).0 e) in
      (
        sub_int (m l) (m r),
        ground (arith, ends, more'),
        (λ e. absurd (ground (arith, e, ends, more')), λ e. absurd (omega (arith, e.0))),
      )
  strcmp_loop-SameText (suc f) l r (suc a) (suc b) h s t =
      let more : m l ≢ 0 = λ e. suc-ne-zero ((IsString-head m l (suc a) s).0 e) in
      elim (Bool-cases (m l == m r)) [
        | inr other ↦ (
          sub_int (m l) (m r),
          ground (arith, other),
          (
            λ e. absurd (ground (arith, other, e)),
            λ e.
                absurd
                  (ground (arith, other, rw (add-zero l, add-zero r) at (e.1 0 (omega arith)))),
          ),
        )
        | inl same ↦
            let e : m l ≡ m r = ground (arith, same) in
            let (z, found, iff) =
              strcmp_loop-SameText f (l + 1) (r + 1) a b (omega (arith, h)) (IsString-tail m l a s)
                (IsString-tail m r b t) in
            let step = SameText-step m l r a b e in
            (z, ground (arith, same, more, found), (λ q. step.0 (iff.0 q), λ q. iff.1 (step.1 q)))
      ]

-- `strcmp` of two strings ends, and its result is 0 exactly if they have the same length and the same
-- characters.
strcmp-SameText :
    (m : Memory) (lhs rhs a b : ℕ)
    → IsString m lhs a
    → IsString m rhs b
    → (z : ℤ) × (strcmp lhs rhs m ≡ some z) × ((z ≡ pos 0) ↔ SameText m lhs rhs a b)
unfolding strcmp
strcmp-SameText m lhs rhs a b s t = strcmp_loop-SameText m (2 ^ 32) lhs rhs a b s.fits s t
