-- ===== src/Paging/Large.antt =====
-- `allocate` of kernel/cpp/PageDescriptorTable.cpp on a large page, whose entry it computes by `&` of the
-- page's address and the settings.
use Prim.Native.Nat.{min, digits, bit_and, bit_and-bitwise}
use native.Mathlib.Nat.{pow-suc}
use stable_genius.Common.{
  ℕ, zero, suc, ◌*◌, ◌/◌, ◌%◌, ◌^◌, ◌≡◌, ◌≢◌, ◌<◌, refl, true, false, arith, ◌==◌, ap, ◌∙◌,
  Option-cases, inl, inr,
}
use stable_genius.Frames
use stable_genius.Paging.{
  Paging, present, large, pdt_index, put, translate, take_frame, allocate_large, allocate_page,
}

no_digits : (n a : ℕ) → digits (λ b. 0) min n a 0 ≡ 0
no_digits zero a = refl
no_digits (suc n) zero = refl
no_digits (suc n) (suc a) = omega (arith, no_digits n (suc a / 2))

digits-apart : (k n a q b : ℕ) → a ≡ q * 2 ^ k → b < 2 ^ k → digits (λ b. 0) min n a b ≡ 0
digits-apart zero n a q b e h = let none_set : b ≡ 0 = omega arith in rw none_set (no_digits n a)
digits-apart (suc k) zero a q b e h = refl
digits-apart (suc k) (suc n) zero q b e h = refl
digits-apart (suc k) (suc n) (suc a) q b e h =
    let half : suc a ≡ 2 * (q * 2 ^ k) = e ∙ omega (arith, ap (λ (t : ℕ). q * t) (pow-suc 2 k)) in
    omega (arith, digits-apart k n (suc a / 2) q (b / 2) (omega arith) (omega (arith, pow-suc 2 k)))

-- The address of a page and settings have no bit in common.
bit_and-apart : (page conf : ℕ) → page % 2 ^ 12 ≡ 0 → conf < 2 ^ 12 → bit_and page conf ≡ 0
bit_and-apart page conf aligned fits =
    simp bit_and-bitwise (digits-apart 12 page page (page / 2 ^ 12) conf (omega arith) fits)

allocate-aligned : (f : Frames.Frames) → (Frames.allocate true f).1 % 2 ^ 12 ≡ 0
unfolding Frames.allocate
allocate-aligned f = elim (Option-cases (Frames.find_large f)) [
  | inl miss ↦ rw (miss, Frames.allocate) refl
  | inr (loc, hit) ↦ rw (hit, Frames.allocate) (omega arith)
]

pub take_frame-aligned : (phys : ℕ) (f : Frames.Frames) → (take_frame true phys f).1 % 2 ^ 12 ≡ 0
unfolding take_frame
take_frame-aligned phys f = ground (arith, allocate-aligned f)

-- The state with an entry of 0 for `v`
abbrev pub zeroed : (v : ℕ) (pfa : Frames.Frames) → Paging → Paging
zeroed v pfa s = record s { entries = put (pdt_index v) 0 s.entries; pfa = pfa }

pub allocate_large-zeroed :
    (v conf page : ℕ) (pfa : Frames.Frames) (s : Paging)
    → conf < 2 ^ 12
    → page ≢ 0
    → page % 2 ^ 12 ≡ 0
    → allocate_large v conf (pfa, page) s ≡ (zeroed v pfa s, true, false)
unfolding allocate_large
allocate_large-zeroed v conf page pfa s fits ne aligned =
    let some_page : (page == 0) ≡ false = ground (arith, ne) in
    rw (some_page, bit_and-apart page conf aligned fits) refl

translate-zeroed :
    (v a : ℕ) (pfa : Frames.Frames) (s : Paging)
    → pdt_index a ≡ pdt_index v
    → translate a (zeroed v pfa s) ≡ 0
unfolding translate put
translate-zeroed v a pfa s e =
    let same : (pdt_index a == pdt_index v) ≡ true = ground arith in rw same refl

allocate_page-zeroed :
    (new_table : ℕ → ℕ → Paging → Paging) (v conf phys : ℕ) (s : Paging)
    → conf < 2 ^ 12
    → present conf ≡ true
    → large conf ≡ true
    → translate v s ≡ 0
    → (take_frame true phys s.pfa).1 ≢ 0
    → allocate_page new_table v conf phys s
      ≡ (zeroed v (take_frame true phys s.pfa).0 s, true, false)
unfolding allocate_page
allocate_page-zeroed new_table v conf phys s fits conf_present conf_large unmapped ne =
    let (pfa, page) = take_frame true phys s.pfa in
    ground (
      arith,
      conf_present,
      conf_large,
      unmapped,
      allocate_large-zeroed v conf page pfa s fits ne (take_frame-aligned phys s.pfa),
    )

-- `allocate` of a large page with a new physical page, or one that is given, at an address without a
-- translation reports success and leaves every address of that 4MB without a translation: the
-- entry is the `&` of an address and settings, which is 0. It keeps the page that it took.
pub allocate_page-large_unmapped :
    (new_table : ℕ → ℕ → Paging → Paging) (v conf phys a : ℕ) (s : Paging)
    → conf < 2 ^ 12
    → present conf ≡ true
    → large conf ≡ true
    → translate v s ≡ 0
    → (take_frame true phys s.pfa).1 ≢ 0
    → pdt_index a ≡ pdt_index v
    → let (s', given, _) = allocate_page new_table v conf phys s in
      (given ≡ true) × (translate a s' ≡ 0) × (s'.pfa ≡ (take_frame true phys s.pfa).0)
allocate_page-large_unmapped new_table v conf phys a s fits conf_present conf_large unmapped ne
      same =
    rw (allocate_page-zeroed new_table v conf phys s fits conf_present conf_large unmapped ne)
      (refl, translate-zeroed v a (take_frame true phys s.pfa).0 s same, refl)
