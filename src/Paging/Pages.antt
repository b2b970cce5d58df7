-- ===== src/Paging/Pages.antt =====
-- `allocate` and `free` of kernel/cpp/PageDescriptorTable.cpp on one small page: what they do to the
-- translation of every address.
use stable_genius.Common.{
  ℕ, ◌+◌, ◌/◌, ◌%◌, ◌^◌, ◌≡◌, ◌≢◌, ◌<◌, refl, sym, ◌∙◌, Bool, true, false, arith, ◌==◌,
  if◌then◌else◌, inl, inr, Bool-cases, Option-cases, first_from, first_from-none,
}
use native.Mathlib.Decide.{ℕ_discrete}
use stable_genius.Frames
use stable_genius.Paging.{
  Table, Paging, writable, present, large, table_size, pdt_index, pt_index, put, is_empty,
  clear_page, sets_page, set_page, get_table, translate_small, translate, take_frame,
  allocate_small, enter_page, allocate_page, drop_table, free_mapped, free_page,
}
use stable_genius.Paging.Cover.{
  Covered, entered, translate-Covered, entered-Covered, translate-entered, with_pfa,
  translate-with_pfa, with_pfa-Covered, entry_address-add,
}

-- What a small page needs to be allocated at `v` with the settings `conf`.
pub record Room (v conf : ℕ) (s : Paging) : Type 0 where
  pub covered : Covered v s
  pub conf_fits : conf < 2 ^ 12
  pub conf_present : present conf ≡ true
  pub conf_small : large conf ≡ false
  pub unused : present (s.tables (s.virt_entries (pdt_index v)) (pt_index v)) ≡ false

pub translate-unused :
    (v conf a : ℕ) (s : Paging) → Room v conf s → a / 2 ^ 12 ≡ v / 2 ^ 12 → translate a s ≡ 0
translate-unused v conf a s r e =
    let same : pdt_index a ≡ pdt_index v = omega arith in
    let same_entry : pt_index a ≡ pt_index v = omega arith in
    rw (translate-Covered a v s r.covered same) (ground (arith, r.unused, same_entry))

-- A page of the allocator is one that `set` takes, at a multiple of 4096.
pub new_frame-aligned :
    (s : Paging)
    → (Frames.allocate false s.pfa).1 ≢ 0
    → (Frames.allocate false s.pfa).1 % 2 ^ 12 ≡ 0
new_frame-aligned s ne =
    let (i, e, _, _, _, _) = Frames.Small.allocate_small-Grants s.pfa ne in omega arith

enter_page-entered :
    (v page conf : ℕ) (s : Paging)
    → Room v conf s
    → page % 2 ^ 12 ≡ 0
    → enter_page v page conf (s.virt_entries (pdt_index v)) s
      ≡ (entered v (page + conf) s, true, false)
unfolding enter_page set_page sets_page
enter_page-entered v page conf s r aligned =
    let below : pt_index v < 1024 = omega arith in
    let sets : sets_page page (pt_index v) conf ≡ true = ground (arith, r.conf_fits, below) in
    ground (arith, r.unused, r.covered.some_table, sets)

allocate_small-entered :
    (new_table : ℕ → ℕ → Paging → Paging) (v page conf : ℕ) (pfa : Frames.Frames) (s : Paging)
    → Room v conf s
    → page ≢ 0
    → page % 2 ^ 12 ≡ 0
    → allocate_small new_table v conf (pfa, page) s
      ≡ (entered v (page + conf) (with_pfa pfa s), true, false)
unfolding allocate_small get_table
allocate_small-entered new_table v page conf pfa s r ne aligned =
    let below : pdt_index v < 1024 = omega (arith, r.covered.fits) in
    let r' : Room v conf (with_pfa pfa s) = record {
      covered = record {
        fits = r.covered.fits;
        entry_present = r.covered.entry_present;
        entry_small = r.covered.entry_small;
        some_table = r.covered.some_table;
        apart = r.covered.apart;
      };
      conf_fits = r.conf_fits;
      conf_present = r.conf_present;
      conf_small = r.conf_small;
      unused = r.unused;
    } in
    ground (
      arith,
      r.covered.entry_present,
      below,
      enter_page-entered v page conf (with_pfa pfa s) r' aligned,
    )

pub allocate_page-entered :
    (new_table : ℕ → ℕ → Paging → Paging) (v conf : ℕ) (s : Paging)
    → Room v conf s
    → (Frames.allocate false s.pfa).1 ≢ 0
    → allocate_page new_table v conf 0 s ≡ (
      entered v
          ((Frames.allocate false s.pfa).1 + conf)
          (with_pfa (Frames.allocate false s.pfa).0 s),
      true,
      false,
    )
unfolding allocate_page take_frame
allocate_page-entered new_table v conf s r ne =
    let (pfa, page) = Frames.allocate false s.pfa in
    ground (
      arith,
      r.conf_present,
      r.conf_small,
      r.conf_fits,
      translate-unused v conf v s r refl,
      allocate_small-entered new_table v (Frames.allocate false s.pfa).1 conf
          (Frames.allocate false s.pfa).0 s r ne (new_frame-aligned s ne),
    )

-- `allocate` of a small page at an address that no page holds yet, under a table that covers no other
-- addresses, succeeds when the allocator has a page. Then the addresses of that virtual page
-- translate to the new physical page, each with its offset, and all others as before.
pub allocate_page-translate :
    (new_table : ℕ → ℕ → Paging → Paging) (v conf a : ℕ) (s : Paging)
    → Room v conf s
    → (Frames.allocate false s.pfa).1 ≢ 0
    → let (s', given, recursive) = allocate_page new_table v conf 0 s in
      let page = (Frames.allocate false s.pfa).1 in
      (given ≡ true)
      × (recursive ≡ false)
      × (translate a s' ≡ (if a / 2 ^ 12 == v / 2 ^ 12 then page + a % 2 ^ 12 else translate a s))
allocate_page-translate new_table v conf a s r ne =
    let (f, page) = Frames.allocate false s.pfa in
    rw (allocate_page-entered new_table v conf s r ne) (
      refl,
      refl,
      rw
          (
            translate-entered v (page + conf) a (with_pfa f s) (with_pfa-Covered v f s r.covered),
            entry_address-add page conf a (new_frame-aligned s ne) r.conf_fits r.conf_present,
            translate-with_pfa a f s,
          )
          refl,
    )

is_empty-absent : (t : Table) (i : ℕ) → is_empty t ≡ true → i < table_size → present (t i) ≡ false
unfolding is_empty
is_empty-absent t i e h = elim (Option-cases (first_from (λ j. present (t j)) table_size 0)) [
  | inl miss ↦ first_from-none (λ j. present (t j)) table_size 0 i miss (omega arith) (omega arith)
  | inr (j, hit) ↦ absurd (ground arith)
]

abbrev pub dropped : (i : ℕ) → Paging → Paging
dropped i s = record s { entries = put i writable s.entries; virt_entries = put i 0 s.virt_entries }

translate-dropped : (i a : ℕ) (s : Paging) → pdt_index a ≡ i → translate a (dropped i s) ≡ 0
unfolding translate put
translate-dropped i a s e = let same : (pdt_index a == i) ≡ true = ground arith in rw same refl

translate-dropped_other :
    (i a : ℕ) (s : Paging) → pdt_index a ≢ i → translate a (dropped i s) ≡ translate a s
unfolding translate translate_small get_table put
translate-dropped_other i a s ne =
    let other : (pdt_index a == i) ≡ false = ground (arith, ne) in rw other refl

translate-empty :
    (v a : ℕ) (s : Paging)
    → Covered v s
    → is_empty (s.tables (s.virt_entries (pdt_index v))) ≡ true
    → pdt_index a ≡ pdt_index v
    → translate a s ≡ 0
translate-empty v a s c e same =
    let table = s.tables (s.virt_entries (pdt_index v)) in
    ground
      (arith, is_empty-absent table (pt_index a) e (omega arith), translate-Covered a v s c same)

drop_table-translate :
    (v a : ℕ) (s : Paging)
    → Covered v s
    → translate a (drop_table (pdt_index v) (s.virt_entries (pdt_index v)) s) ≡ translate a s
unfolding drop_table
drop_table-translate v a s c =
    elim (Bool-cases (is_empty (s.tables (s.virt_entries (pdt_index v))))) [
      | inl e ↦ elim (ℕ_discrete (pdt_index a) (pdt_index v)) [
        | yes same ↦
            rw e (translate-dropped (pdt_index v) a s same ∙ sym (translate-empty v a s c e same))
        | no ne ↦ rw e (translate-dropped_other (pdt_index v) a s ne)
      ]
      | inr e ↦ rw e refl
    ]

free_mapped-translate :
    (v a : ℕ) (s : Paging)
    → Covered v s
    → translate a (free_mapped v s) ≡ (if a / 2 ^ 12 == v / 2 ^ 12 then 0 else translate a s)
unfolding free_mapped clear_page get_table
free_mapped-translate v a s c =
    let below : pdt_index v < 1024 = omega (arith, c.fits) in
    let dropped =
      drop_table-translate v a (entered v writable s) (entered-Covered v writable s c) in
    let cleared = translate-entered v writable a s c in
    ground (arith, c.entry_present, c.entry_small, below, dropped, cleared)

-- `free` of a mapped address whose small page stands in a table that covers no other addresses leaves
-- each address of that virtual page without a translation, and keeps that of every other address,
-- also where the table is empty then and goes, and whether or not the physical page is given back.
pub free_page-translate :
    (v a : ℕ) (phys_free : Bool) (s : Paging)
    → Covered v s
    → translate v s ≢ 0
    → translate a (free_page v phys_free s)
      ≡ (if a / 2 ^ 12 == v / 2 ^ 12 then 0 else translate a s)
unfolding free_page
free_page-translate v a true s c ne =
    let freed = with_pfa (Frames.free (large (s.entries (pdt_index v))) (translate v s) s.pfa) s in
    ground (
      arith,
      ne,
      free_mapped-translate v a freed (with_pfa-Covered v freed.pfa s c),
      translate-with_pfa a freed.pfa s,
    )
free_page-translate v a false s c ne = ground (arith, ne, free_mapped-translate v a s c)
