-- ===== src/Paging/Cover.antt =====
-- The table that covers an address of kernel/cpp/PageDescriptorTable.cpp: what one other entry in it does
-- to the translations.
use stable_genius.Common.{
  ℕ, ◌+◌, ◌/◌, ◌%◌, ◌^◌, ◌≡◌, ◌≢◌, ◌<◌, refl, true, false, arith, ◌==◌, if◌then◌else◌,
}
use native.Mathlib.Decide.{ℕ_discrete}
use stable_genius.Frames
use stable_genius.Paging.{
  Paging, present, large, page_start, pdt_index, pt_index, put, put_table, get_table,
  translate_small, translate,
}

-- A table of small pages covers `v`, and covers no other addresses than those of its 4MB.
pub record Covered (v : ℕ) (s : Paging) : Type 0 where
  pub fits : v < 2 ^ 32
  pub entry_present : present (s.entries (pdt_index v)) ≡ true
  pub entry_small : large (s.entries (pdt_index v)) ≡ false
  pub some_table : s.virt_entries (pdt_index v) ≢ 0
  pub apart : (i : ℕ) → i ≢ pdt_index v → s.virt_entries i ≢ s.virt_entries (pdt_index v)

-- What a page that a table holds under an entry translates to.
abbrev pub entry_address : (entry addr : ℕ) → ℕ
entry_address entry addr = if present entry then page_start entry + addr % 2 ^ 12 else 0

-- The state with another entry for `v`
abbrev pub entered : (v entry : ℕ) → Paging → Paging
entered v entry s =
    let pt = s.virt_entries (pdt_index v) in
    record s { tables = put_table pt (put (pt_index v) entry (s.tables pt)) s.tables }

same_page :
    (a v : ℕ) → pdt_index a ≡ pdt_index v → pt_index a ≡ pt_index v → a / 2 ^ 12 ≡ v / 2 ^ 12
same_page a v e f = omega arith

pub translate-Covered :
    (a v : ℕ) (s : Paging)
    → Covered v s
    → pdt_index a ≡ pdt_index v
    → translate a s ≡ entry_address (s.tables (s.virt_entries (pdt_index v)) (pt_index a)) a
unfolding translate translate_small get_table
translate-Covered a v s c e =
    let below : pdt_index v < 1024 = omega (arith, c.fits) in
    rw e (ground (arith, c.entry_present, c.entry_small, c.some_table, below))

pub entered-Covered : (v entry : ℕ) (s : Paging) → Covered v s → Covered v (entered v entry s)
entered-Covered v entry s c = record {
  fits = c.fits;
  entry_present = c.entry_present;
  entry_small = c.entry_small;
  some_table = c.some_table;
  apart = c.apart;
}

-- An address that another table covers
translate-other_table :
    (v entry a : ℕ) (s : Paging)
    → Covered v s
    → pdt_index a ≢ pdt_index v
    → translate a (entered v entry s) ≡ translate a s
unfolding translate translate_small get_table put_table
translate-other_table v entry a s c ne = ground (arith, c.apart (pdt_index a) ne, c.some_table)

pub translate-entered :
    (v entry a : ℕ) (s : Paging)
    → Covered v s
    → translate a (entered v entry s)
      ≡ (if a / 2 ^ 12 == v / 2 ^ 12 then entry_address entry a else translate a s)
unfolding put put_table
translate-entered v entry a s c = elim (ℕ_discrete (pdt_index a) (pdt_index v)) [
  | yes e ↦ ground (
    arith,
    same_page a v e,
    translate-Covered a v s c e,
    translate-Covered a v (entered v entry s) (entered-Covered v entry s c) e,
  )
  | no ne ↦ ground (arith, translate-other_table v entry a s c ne, ne)
]

abbrev pub with_pfa : Frames.Frames → Paging → Paging
with_pfa f s = record s { pfa = f }

pub translate-with_pfa :
    (a : ℕ) (f : Frames.Frames) (s : Paging) → translate a (with_pfa f s) ≡ translate a s
unfolding translate translate_small get_table
translate-with_pfa a f s = refl

pub with_pfa-Covered :
    (v : ℕ) (f : Frames.Frames) (s : Paging) → Covered v s → Covered v (with_pfa f s)
with_pfa-Covered v f s c = record {
  fits = c.fits;
  entry_present = c.entry_present;
  entry_small = c.entry_small;
  some_table = c.some_table;
  apart = c.apart;
}

pub entry_address-add :
    (page conf a : ℕ)
    → page % 2 ^ 12 ≡ 0
    → conf < 2 ^ 12
    → present conf ≡ true
    → entry_address (page + conf) a ≡ page + a % 2 ^ 12
entry_address-add page conf a aligned fits e =
    let odd : present (page + conf) ≡ true = ground arith in rw odd (omega arith)
