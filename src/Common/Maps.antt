-- ===== src/Common/Maps.antt =====
-- `klib::map` with numbers for keys: a list of entries in the order of iteration, which is that of
-- the keys. Clients reason by the laws of `lookup`.
use stable_genius.Common.Tests.{ltb, ◌==◌, if◌then◌else◌, is_some}
use stable_genius.Common.Lists.{length}
use Prim.Native.Nat.{ℕ, suc, zero, ◌+◌, ◌≤◌, ◌<◌}
use mathlib.Core.Path.{◌≡◌, refl}
use mathlib.Core.Bool.{Bool, true}
use mathlib.Core.Option.{Option, none, some}
use mathlib.Core.List.{List, [], ◌∷◌}
use native.Mathlib.Omega.{arith}

abbrev pub Map {ℓ} : Type ℓ → Type ℓ
Map V = List (ℕ × V)

module _ {ℓ} {V : Type ℓ} where
  unfoldable pub lookup : ℕ → Map V → Option V
  lookup key [] = none
  lookup key ((k, value) ∷ entries) = if k == key then some value else lookup key entries

  -- `m[k] = v`
  unfoldable pub insert : ℕ → V → Map V → Map V
  insert key value [] = (key, value) ∷ []
  insert key value ((k, old) ∷ entries) =
      let rest = insert key value entries in
      if ltb k key
      then (k, old) ∷ rest
      else if k == key
      then (key, value) ∷ entries
      else (key, value) ∷ (k, old) ∷ entries

  unfoldable pub erase : ℕ → Map V → Map V
  erase key [] = []
  erase key ((k, old) ∷ entries) =
      let rest = erase key entries in if k == key then rest else (k, old) ∷ rest

  abbrev pub has : ℕ → Map V → Bool
  has k m = is_some (lookup k m)

  pub lookup-insert :
      (set key : ℕ) (value : V) (entries : Map V)
      → lookup key (insert set value entries)
        ≡ (if set == key then some value else lookup key entries)
  unfolding insert lookup
  lookup-insert set key value [] = refl
  lookup-insert set key value (entry ∷ entries) =
      let behind = lookup-insert set key value entries in ground (arith, behind)

  pub lookup-erase :
      (k j : ℕ) (m : Map V) → lookup j (erase k m) ≡ (if k == j then none else lookup j m)
  unfolding lookup erase
  lookup-erase k j [] = ground arith
  lookup-erase k j ((i, w) ∷ m) = ground (arith, lookup-erase k j m)

  length-erase-le : (k : ℕ) (m : Map V) → length (erase k m) ≤ length m
  unfolding erase
  length-erase-le k [] = omega arith
  length-erase-le k ((i, w) ∷ m) = ground (arith, length-erase-le k m)

  length-erase-lt : (k : ℕ) (m : Map V) → has k m ≡ true → length (erase k m) < length m
  unfolding erase lookup
  length-erase-lt k [] h = absurd (ground arith)
  length-erase-lt k ((i, w) ∷ m) h = ground (arith, length-erase-lt k m, length-erase-le k m)

  -- A map that has `n` keys in a row has `n` entries at least.
  pub le-length_of_has :
      (n i : ℕ) (m : Map V) → ((k : ℕ) → i ≤ k → k < i + n → has k m ≡ true) → n ≤ length m
  le-length_of_has zero i m h = omega arith
  le-length_of_has (suc n) i m h =
      let here = length-erase-lt i m (h i (omega arith) (omega arith)) in
      let rest =
        le-length_of_has n (i + 1) (erase i m)
          λ k a b. ground (arith, lookup-erase i k m, h k (omega arith) (omega arith)) in
      omega (arith, here, rest)
