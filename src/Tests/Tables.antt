-- ===== src/Tests/Tables.antt =====
-- The page tables at a concrete state: tables for the first 4MB and the sixth, each with two pages, one of
-- them physical page 0, as in the table that the kernel starts with.
use stable_genius.Common.{
  ℕ, ◌+◌, ◌≡◌, refl, true, false, arith, ◌==◌, if◌then◌else◌, first_from, not, ◌&&◌,
}
use stable_genius.Frames
use stable_genius.Frames.{Frames, page_used, find_small, find_large, check_small, check_large}
use stable_genius.Paging.{
  Paging, get_table, translate, translate_small, take_frame, allocate_page, free_page,
}
use stable_genius.Paging.Space.{unmap, free_user_space, pages_of}
use stable_genius.Paging.Cover.{Covered}
use stable_genius.Paging.Pages
use stable_genius.Paging.Pages.{Room}
use stable_genius.Paging.Reuse
use stable_genius.Paging.Large
use stable_genius.Paging.Order.{Orderly}
use stable_genius.Paging.Allocates
use stable_genius.Paging.Ranges

abbrev no_frames_used : Frames
no_frames_used = record {
  used_pages = λ k b. false;
  mem_size = 0x400_0000;
  kernel_physical_start = 0;
  kernel_physical_end = 0;
  initialised = false;
  mapped = false;
  last_alloc = 8;
}

abbrev two_tables : Paging
two_tables = record {
  entries = λ i. if i == 0 then 0x100003 else if i == 5 then 0x200003 else 2;
  virt_entries = λ i. if i == 0 then 0xc010_0000 else if i == 5 then 0xc020_0000 else 0;
  tables = λ pt n. if n == 0 then 3 else if n == 5 then 0x7003 else 2;
  pfa = no_frames_used;
}

-- The making of a table, where none is made
abbrev no_table : ℕ → ℕ → Paging → Paging
no_table v conf s = s

five_translates : translate 0x5123 two_tables ≡ 0x7123
unfolding translate translate_small get_table
five_translates = refl

nothing_at_3 : translate 0x3000 two_tables ≡ 0
unfolding translate translate_small get_table
nothing_at_3 = refl

two_tables-Covered : Covered 0x3000 two_tables
two_tables-Covered = record {
  fits = omega arith;
  entry_present = refl;
  entry_small = refl;
  some_table = omega arith;
  apart = λ i ne. ground (arith, ne);
}

two_tables-Room : Room 0x3000 3 two_tables
two_tables-Room = record {
  covered = two_tables-Covered;
  conf_fits = omega arith;
  conf_present = refl;
  conf_small = refl;
  unused = refl;
}

two_tables-Orderly : Orderly two_tables
two_tables-Orderly = record {
  small = λ i. ground arith;
  some_table = λ i. ground arith;
  apart = λ i j. ground arith;
}

small_frame : (Frames.allocate false no_frames_used).1 ≡ 0x9000
unfolding Frames.allocate find_small first_from check_small
small_frame = refl

large_frame : (take_frame true 0 no_frames_used).1 ≡ 0x40_0000
unfolding take_frame Frames.allocate find_large first_from check_large
large_frame = refl

allocate_page-translate_example :
    let (s', given, recursive) = allocate_page no_table 0x3000 3 0 two_tables in
    let page = (Frames.allocate false no_frames_used).1 in
    (given ≡ true) × (recursive ≡ false) × (translate 0x3456 s' ≡ page + 0x456)
allocate_page-translate_example =
    Pages.allocate_page-translate no_table 0x3000 3 0x3456 two_tables two_tables-Room
      (omega (arith, small_frame))

free_page-allocate_page_example :
    let s' = free_page 0x3000 true (allocate_page no_table 0x3000 3 0 two_tables).0 in
    (translate 0x5123 s' ≡ translate 0x5123 two_tables) × (page_used s'.pfa.used_pages 9 ≡ false)
free_page-allocate_page_example =
    Reuse.free_page-allocate_page no_table 0x3000 3 0x5123 9 two_tables two_tables-Room
      (omega (arith, small_frame))

allocate_page-large_unmapped_example :
    let (s', given, _) = allocate_page no_table 0x3000 0x83 0 two_tables in
    (given ≡ true) × (translate 0x5123 s' ≡ 0) × (s'.pfa ≡ (take_frame true 0 no_frames_used).0)
allocate_page-large_unmapped_example =
    Large.allocate_page-large_unmapped no_table 0x3000 0x83 0 0x5123 two_tables (omega arith) refl
      refl nothing_at_3 (omega (arith, large_frame)) refl

two_pages : pages_of 0x4800 0x1000 ≡ 2
unfolding pages_of
two_pages = refl

unmap-translate_example : translate 0x5123 (unmap 0x4800 0x1000 two_tables) ≡ (
    if Ranges.in_range 5 4 (pages_of 0x4800 0x1000) && not (translate 0x5000 two_tables == 0)
    then 0
    else translate 0x5123 two_tables)
unmap-translate_example =
    Ranges.unmap-translate 0x4800 0x1000 0x5123 two_tables two_tables-Orderly
      (omega (arith, two_pages))

far_translates : translate 0x140_5123 two_tables ≡ 0x7123
unfolding translate translate_small get_table
far_translates = refl

free_user_space-leaves_example :
    translate 0x140_5123 (free_user_space 0xc000_0000 true two_tables)
    ≡ translate 0x140_5123 two_tables
free_user_space-leaves_example =
    Ranges.free_user_space-leaves 0xc000_0000 0x140_5123 true two_tables two_tables-Orderly
      (omega arith) (omega arith)
