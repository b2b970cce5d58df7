-- ===== src/Files/Keys.antt =====
-- The search for an unused key or descriptor ends, at the least that is unused.
use stable_genius.Common.{
  ℕ, suc, ◌≤◌, ◌<◌, ◌≡◌, inl, inr, true, false, not, some, first_from, length, arith,
  first_from-IsFirst, first_from-none, Option-cases,
}
use stable_genius.Common.Maps.{Map, has, le-length_of_has}
use stable_genius.Files.{unused_key}

pub record IsLeastUnused {ℓ} {V : Type ℓ} (start : ℕ) (m : Map V) (key : ℕ) : Type ℓ where
  pub above : start ≤ key
  pub unused : has key m ≡ false
  pub least : (k : ℕ) → start ≤ k → k < key → has k m ≡ true

pub unused_key-total {ℓ} :
    {V : Type ℓ} (start : ℕ) (m : Map V)
    → (key : ℕ) × (unused_key start m ≡ some key) × IsLeastUnused start m key
unfolding unused_key
unused_key-total start m =
    elim (Option-cases (first_from (λ key. not (has key m)) (suc (length m)) start)) [
      | inl miss ↦
          let full = le-length_of_has (suc (length m)) start m λ k a b.
            ground
              (arith, first_from-none (λ key. not (has key m)) (suc (length m)) start k miss a b) in
          absurd (omega (arith, full))
      | inr (key, hit) ↦
          let found = first_from-IsFirst (λ key. not (has key m)) (suc (length m)) start hit in
          (
            key,
            hit,
            record {
              above = found.above;
              unused = ground (arith, found.hit);
              least = λ k a b. ground (arith, found.missed k a b);
            },
          )
    ]
