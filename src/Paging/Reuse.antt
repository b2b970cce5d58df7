-- ===== src/Paging/Reuse.antt =====
-- `allocate` of kernel/cpp/PageDescriptorTable.cpp and then `free` of the same page.
use stable_genius.Common.{
  ℕ, ◌+◌, ◌%◌, ◌^◌, ◌≡◌, ◌≢◌, refl, sym, ◌∙◌, Bool, true, false, arith, inl, inr, Bool-cases, ap,
}
use stable_genius.Frames
use stable_genius.Paging.{
  Paging, large, pdt_index, get_table, translate, is_empty, allocate_page, drop_table, free_mapped,
  free_page, put_table, clear_page,
}
use stable_genius.Paging.Cover.{Covered, entered, entered-Covered, with_pfa-Covered, with_pfa}
use stable_genius.Paging.Pages.{
  Room, new_frame-aligned, allocate_page-entered, allocate_page-translate, free_page-translate,
  translate-unused,
}

drop_table-pfa : (i pt : ℕ) (s : Paging) → (drop_table i pt s).pfa ≡ s.pfa
unfolding drop_table
drop_table-pfa i pt s = elim (Bool-cases (is_empty (s.tables pt))) [
  | inl e ↦ rw e refl
  | inr e ↦ rw e refl
]

free_mapped-pfa : (v : ℕ) (s : Paging) → (free_mapped v s).pfa ≡ s.pfa
unfolding free_mapped
free_mapped-pfa v s = elim (Bool-cases (large (s.entries (pdt_index v)))) [
  | inl e ↦ rw e refl
  | inr e ↦ rw e (drop_table-pfa (pdt_index v) (get_table (pdt_index v) s) (cleared s))
]
  where
    cleared : Paging → Paging
    cleared s =
        let pt = get_table (pdt_index v) s in
        record s { tables = put_table pt (clear_page v (s.tables pt)) s.tables }

free_page-pfa :
    (v : ℕ) (s : Paging)
    → large (s.entries (pdt_index v)) ≡ false
    → translate v s ≢ 0
    → (free_page v true s).pfa ≡ Frames.free false (translate v s) s.pfa
unfolding free_page
free_page-pfa v s small ne =
    let pfa = Frames.free false (translate v s) s.pfa in
    ground (arith, small, ne, free_mapped-pfa v (with_pfa pfa s))

-- What `free` gives back is the page that stood there, from any address in it.
free_entered-pfa :
    (v page : ℕ) (s : Paging)
    → Covered v s
    → page ≢ 0
    → page % 2 ^ 12 ≡ 0
    → translate v s ≡ page + v % 2 ^ 12
    → (free_page v true s).pfa ≡ Frames.free false page s.pfa
free_entered-pfa v page s c ne aligned e =
    let some_page : translate v s ≢ 0 = omega (arith, e, ne) in
    rw (free_page-pfa v s c.entry_small some_page, e)
      (Frames.Small.free-within s.pfa page (v % 2 ^ 12) aligned (omega arith))

-- `free` of the address of a small page that `allocate` has just mapped, under a table that covers no
-- other addresses, gives each address the translation that it had before, and the page frame
-- allocator a bitmap that agrees with the one before on every page.
pub free_page-allocate_page :
    (new_table : ℕ → ℕ → Paging → Paging) (v conf a j : ℕ) (s : Paging)
    → Room v conf s
    → (Frames.allocate false s.pfa).1 ≢ 0
    → let s' = free_page v true (allocate_page new_table v conf 0 s).0 in
      (translate a s' ≡ translate a s)
      × (Frames.page_used s'.pfa.used_pages j ≡ Frames.page_used s.pfa.used_pages j)
free_page-allocate_page new_table v conf a j s r ne =
    let (pfa, page) = Frames.allocate false s.pfa in
    let mapped = entered v (page + conf) (with_pfa pfa s) in
    let c = entered-Covered v (page + conf) (with_pfa pfa s) (with_pfa-Covered v pfa s r.covered) in
    let aligned = new_frame-aligned s ne in
    let e = allocate_page-entered new_table v conf s r ne in
    let (_, _, new_v) = allocate_page-translate new_table v conf v s r ne in
    let (_, _, new_a) = allocate_page-translate new_table v conf a s r ne in
    let at_v : translate v mapped ≡ page + v % 2 ^ 12 =
      ap (λ (x : Paging × Bool × Bool). translate v x.0) (sym e) ∙ new_v ∙ ground arith in
    let at_a = ap (λ (x : Paging × Bool × Bool). translate a x.0) (sym e) ∙ new_a in
    let some_page : translate v mapped ≢ 0 = omega (arith, at_v, ne) in
    rw e (
      ground (
        arith,
        free_page-translate v a true mapped c some_page,
        at_a,
        translate-unused v conf a s r,
      ),
      rw (free_entered-pfa v page mapped c ne aligned at_v)
          (Frames.Small.free-allocate_small s.pfa j ne),
    )
