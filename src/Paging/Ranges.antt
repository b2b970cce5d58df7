-- ===== src/Paging/Ranges.antt =====
-- `unmap` and `free_user_space` of kernel/cpp/PageDescriptorTable.cpp, which free one page after the other.
use stable_genius.Common.{
  ℕ, zero, suc, ◌+◌, ◌-◌, ◌*◌, ◌/◌, ◌%◌, ◌^◌, ◌≡◌, ◌≢◌, ◌<◌, ◌≤◌, refl, ◌∙◌, Bool, false, arith,
  ◌==◌, if◌then◌else◌, inl, inr, Bool-cases, ◌&&◌, leb, ltb, not,
}
use native.Mathlib.Decide.{ℕ_discrete}
use stable_genius.Paging.{Paging, translate, free_page}
use stable_genius.Paging.Space.{
  page_bytes, pages_of, unmap_loop, unmap, free_pages, free_tables, free_user_space,
}
use stable_genius.Paging.Order.{Orderly, free_page-unmaps, free_page-Orderly}

-- Whether the page `i` is one of `n` from page `first` on
abbrev pub in_range : (i first n : ℕ) → Bool
in_range i first n = leb first i && ltb i (first + n)

-- The first address of the page of an address
abbrev pub first_of_page : ℕ → ℕ
first_of_page a = a / 2 ^ 12 * 2 ^ 12

unmap_loop-translate :
    (n v a : ℕ) (s : Paging)
    → Orderly s
    → v % page_bytes ≡ 0
    → v + n * page_bytes ≤ 2 ^ 32
    → translate a (unmap_loop n v s) ≡ (
        if in_range (a / 2 ^ 12) (v / 2 ^ 12) n && not (translate (first_of_page a) s == 0)
        then 0
        else translate a s)
unfolding unmap_loop
unmap_loop-translate zero v a s o aligned h = ground arith
unmap_loop-translate (suc n) v a s o aligned h =
    let here = free_page-unmaps v a false s o (omega arith) in
    let first = free_page-unmaps v (first_of_page a) false s o (omega arith) in
    let v' = (v + page_bytes) % 2 ^ 32 in
    let rest =
      unmap_loop-translate n v' a (free_page v false s) (free_page-Orderly v false s o)
        (omega arith) (omega arith) in
    let next : n ≢ 0 → v' / 2 ^ 12 ≡ v / 2 ^ 12 + 1 = λ some_left. omega arith in
    elim (ℕ_discrete (first_of_page a) v) [
      | yes e ↦
          let page : a / 2 ^ 12 ≡ v / 2 ^ 12 = omega arith in
          ground (arith, here, rest, next, page, e)
      | no ne ↦
          let page : a / 2 ^ 12 ≢ v / 2 ^ 12 = λ e. ne (omega arith) in
          let same : first_of_page a / 2 ^ 12 ≡ a / 2 ^ 12 = omega arith in
          ground (arith, here, first, rest, next, page, same)
    ]

-- In a directory of small pages whose tables have different addresses, `unmap` of `size` bytes whose pages all
-- lie below 4GB leaves each address of those pages without a translation, save on a page whose first
-- address translates to 0, and keeps that of every other address. The pages are those from the one of
-- the address on, `(size + offset) / 4096 + 1` in number: where the bytes end at the end of a page,
-- the next page goes too. A page whose first address translates to 0 is not mapped or is physical
-- page 0, which stays.
pub unmap-translate :
    (v size a : ℕ) (s : Paging)
    → Orderly s
    → v - v % page_bytes + pages_of v size * page_bytes ≤ 2 ^ 32
    → translate a (unmap v size s) ≡ (
        if in_range (a / 2 ^ 12) (v / 2 ^ 12) (pages_of v size)
          && not (translate (first_of_page a) s == 0)
        then 0
        else translate a s)
unfolding unmap
unmap-translate v size a s o h =
    let e : (v - v % page_bytes) / 2 ^ 12 ≡ v / 2 ^ 12 = omega arith in
    rw (unmap_loop-translate (pages_of v size) (v - v % page_bytes) a s o (omega arith) h, e) refl

-- The pages that `free_pages` asks for all lie below `a`.
free_pages-keeps :
    (n j i a : ℕ) (phys_free : Bool) (s : Paging)
    → Orderly s
    → i + (j + n) ≤ a / 2 ^ 12
    → i + (j + n) ≤ 2 ^ 20
    → (translate a (free_pages n j i phys_free s) ≡ translate a s)
      × Orderly (free_pages n j i phys_free s)
unfolding free_pages
free_pages-keeps zero j i a phys_free s o h fits = (refl, o)
free_pages-keeps (suc n) j i a phys_free s o h fits =
    let v = i * page_bytes + j * page_bytes in
    let other : (a / 2 ^ 12 == v / 2 ^ 12 && not (translate v s == 0)) ≡ false = ground arith in
    let here = free_page-unmaps v a phys_free s o (omega arith) in
    let (rest, o') =
      free_pages-keeps n (j + 1) i a phys_free (free_page v phys_free s)
        (free_page-Orderly v phys_free s o) (omega arith) (omega arith) in
    (rest ∙ here ∙ rw other refl, o')

free_tables-keeps :
    (n i a : ℕ) (phys_free : Bool) (s : Paging)
    → Orderly s
    → i + n + 4095 ≤ a / 2 ^ 12
    → i + n + 4095 ≤ 2 ^ 20
    → translate a (free_tables n i phys_free s) ≡ translate a s
unfolding free_tables
free_tables-keeps zero i a phys_free s o h fits = refl
free_tables-keeps (suc n) i a phys_free s o h fits =
    let (here, o') = free_pages-keeps page_bytes 0 i a phys_free s o (omega arith) (omega arith) in
    elim (Bool-cases (s.virt_entries i == 0)) [
      | inl e ↦ rw e (free_tables-keeps n (i + 1) a phys_free s o (omega arith) (omega arith))
      | inr e ↦ rw e (
          free_tables-keeps n (i + 1) a phys_free (free_pages page_bytes 0 i phys_free s) o'
            (omega arith) (omega arith)
          ∙ here)
    ]

-- In a directory of small pages whose tables have different addresses, `free_user_space(end)` asks for the pages from `pdt_index + 0` to `pdt_index + 4095` for each table
-- below `end`, and so leaves every address from page `end / 4MB + 4095` on with the translation
-- that it had, though all those below `end` are of the user space that it is to free.
pub free_user_space-leaves :
    (end a : ℕ) (phys_free : Bool) (s : Paging)
    → Orderly s
    → end < 2 ^ 32
    → end / 2 ^ 22 + 4095 ≤ a / 2 ^ 12
    → translate a (free_user_space end phys_free s) ≡ translate a s
unfolding free_user_space
free_user_space-leaves end a phys_free s o fits h =
    free_tables-keeps (end / 2 ^ 22) 0 a phys_free s o (omega arith) (omega arith)
