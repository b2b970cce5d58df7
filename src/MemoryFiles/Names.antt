-- ===== src/MemoryFiles/Names.antt =====
-- The map from names to inodes: equality of names, and the laws of a search.
use stable_genius.Common.{
  ℕ, true, ◌≡◌, refl, none, some, [], ◌∷◌, arith, Bool-cases, inl, inr, if◌then◌else◌,
}
use stable_genius.MemoryFiles.{
  Name, FileMap, same_name, starts_with, find, assign, erase_name, any_below,
}

pub same_name_refl : (n : Name) → same_name n n ≡ true
unfolding same_name
same_name_refl [] = refl
same_name_refl (c ∷ cs) = ground (arith, same_name_refl cs)

pub same_name→eq : (a b : Name) → same_name a b ≡ true → a ≡ b
unfolding same_name
same_name→eq [] [] h = refl
same_name→eq [] (b ∷ bs) h = absurd (ground arith)
same_name→eq (a ∷ as') [] h = absurd (ground arith)
same_name→eq (a ∷ as') (b ∷ bs) h =
    let rest = same_name→eq as' bs (ground (arith, h)) in
    let first : a ≡ b = ground (arith, h) in rw (first, rest) refl

same_name_trans :
    (a b c : Name) → same_name a c ≡ true → same_name b c ≡ true → same_name a b ≡ true
same_name_trans a b c h k = rw (same_name→eq a c h, same_name→eq b c k) (same_name_refl c)

same_name_sym : (a b : Name) → same_name a b ≡ true → same_name b a ≡ true
same_name_sym a b h = rw (same_name→eq a b h) (same_name_refl b)

same_name_on : (a b c : Name) → same_name a b ≡ true → same_name a c ≡ same_name b c
same_name_on a b c h = rw (same_name→eq a b h) refl

pub find-erase_name :
    (name j : Name) (m : FileMap)
    → find j (erase_name name m) ≡ (if same_name name j then none else find j m)
unfolding find erase_name
find-erase_name name j [] = ground arith
find-erase_name name j ((k, i) ∷ rest) =
    let ih = find-erase_name name j rest in
    elim (Bool-cases (same_name k name)) [
      | inl e ↦ ground (arith, ih, e, same_name_on k name j e)
      | inr e ↦ ground (arith, ih, e, same_name_trans k name j)
    ]

pub find-assign :
    (name : Name) (i : ℕ) (j : Name) (m : FileMap)
    → find j (assign name i m) ≡ (if same_name name j then some i else find j m)
unfolding find assign
find-assign name i j [] = refl
find-assign name i j ((k, o) ∷ rest) =
    let ih = find-assign name i j rest in
    elim (Bool-cases (same_name k name)) [
      | inl e ↦ ground (arith, ih, e, same_name_on k name j e)
      | inr e ↦ ground (arith, ih, e, same_name_trans k name j)
    ]

starts_with_self : (n : Name) → starts_with n n ≡ true
unfolding starts_with
starts_with_self [] = refl
starts_with_self (c ∷ cs) = ground (arith, starts_with_self cs)

-- A name in the map starts with itself.
pub find-any_below : (n : Name) (i : ℕ) (m : FileMap) → find n m ≡ some i → any_below n m ≡ true
unfolding find any_below
find-any_below n i [] h = absurd (ground arith)
find-any_below n i ((k, j) ∷ rest) h = elim (Bool-cases (same_name k n)) [
  | inl e ↦
      let self : starts_with n k ≡ true = rw (same_name→eq k n e) (starts_with_self n) in
      rw self refl
  | inr e ↦ ground (arith, find-any_below n i rest, h, e)
]
