-- ===== src/Paging/Order.antt =====
-- The order of the tables of kernel/cpp/PageDescriptorTable.cpp, which `allocate` and `free` keep.
use stable_genius.Common.{
  ℕ, ◌/◌, ◌^◌, ◌≡◌, ◌≢◌, ◌<◌, refl, sym, ◌∙◌, Bool, true, false, arith, ◌==◌, if◌then◌else◌, ◌&&◌,
  not, inl, inr, Bool-cases,
}
use native.Mathlib.Decide.{ℕ_discrete}
use stable_genius.Frames
use stable_genius.Paging.{
  Paging, writable, present, large, pdt_index, put, put_table, get_table, translate, is_empty,
  clear_page, drop_table, free_mapped, free_page,
}
use stable_genius.Paging.Cover.{Covered, with_pfa}
use stable_genius.Paging.Pages.{free_page-translate, dropped}

-- Tables of small pages only, each with an address of its own
pub record Orderly (s : Paging) : Type 0 where
  pub small : (i : ℕ) → present (s.entries i) ≡ true → large (s.entries i) ≡ false
  pub some_table : (i : ℕ) → present (s.entries i) ≡ true → s.virt_entries i ≢ 0
  pub apart : (i j : ℕ) → i ≢ j → s.virt_entries i ≡ s.virt_entries j → s.virt_entries i ≡ 0

translate-absent :
    (v : ℕ) (s : Paging) → present (s.entries (pdt_index v)) ≡ false → translate v s ≡ 0
unfolding translate
translate-absent v s e = rw e refl

Orderly-Covered :
    (v : ℕ) (s : Paging)
    → Orderly s
    → v < 2 ^ 32
    → present (s.entries (pdt_index v)) ≡ true
    → Covered v s
Orderly-Covered v s o fits e = record {
  fits = fits;
  entry_present = e;
  entry_small = o.small (pdt_index v) e;
  some_table = o.some_table (pdt_index v) e;
  apart = λ i ne same. o.some_table (pdt_index v) e (sym same ∙ o.apart i (pdt_index v) ne same);
}

-- `free` does nothing where the address translates to 0, be it that no page is mapped there or that it
-- is the first address of physical page 0.
pub free_page-unmaps :
    (v a : ℕ) (phys_free : Bool) (s : Paging)
    → Orderly s
    → v < 2 ^ 32
    → translate a (free_page v phys_free s)
      ≡ (if a / 2 ^ 12 == v / 2 ^ 12 && not (translate v s == 0) then 0 else translate a s)
unfolding free_page
free_page-unmaps v a phys_free s o fits = elim (ℕ_discrete (translate v s) 0) [
  | yes e ↦ ground (arith, e)
  | no ne ↦ elim (Bool-cases (present (s.entries (pdt_index v)))) [
    | inl p ↦
        ground (arith, ne, free_page-translate v a phys_free s (Orderly-Covered v s o fits p) ne)
    | inr q ↦ absurd (ne (translate-absent v s q))
  ]
]

dropped-Orderly : (i : ℕ) (s : Paging) → Orderly s → Orderly (dropped i s)
unfolding put
dropped-Orderly i s o = record {
  small = λ k. ground (arith, o.small k);
  some_table = λ k. ground (arith, o.some_table k);
  apart = λ k j. ground (arith, o.apart k j);
}

clear_page-Orderly :
    (v pt : ℕ) (s : Paging)
    → Orderly s
    → Orderly (record s { tables = put_table pt (clear_page v (s.tables pt)) s.tables })
unfolding put put_table clear_page
clear_page-Orderly v pt s o = record { small = o.small; some_table = o.some_table; apart = o.apart }

pub with_pfa-Orderly : (f : Frames.Frames) (s : Paging) → Orderly s → Orderly (with_pfa f s)
with_pfa-Orderly f s o = record { small = o.small; some_table = o.some_table; apart = o.apart }

drop_table-Orderly : (i pt : ℕ) (s : Paging) → Orderly s → Orderly (drop_table i pt s)
unfolding drop_table
drop_table-Orderly i pt s o = elim (Bool-cases (is_empty (s.tables pt))) [
  | inl e ↦ rw e (dropped-Orderly i s o)
  | inr e ↦ rw e o
]

put-Orderly :
    (i : ℕ) (s : Paging) → Orderly s → Orderly (record s { entries = put i writable s.entries })
unfolding put
put-Orderly i s o = record {
  small = λ k. ground (arith, o.small k);
  some_table = λ k. ground (arith, o.some_table k);
  apart = o.apart;
}

free_mapped-Orderly : (v : ℕ) (s : Paging) → Orderly s → Orderly (free_mapped v s)
unfolding free_mapped
free_mapped-Orderly v s o =
    let pt = get_table (pdt_index v) s in
    elim (Bool-cases (large (s.entries (pdt_index v)))) [
      | inl e ↦ rw e (put-Orderly (pdt_index v) s o)
      | inr e ↦ rw e (
          drop_table-Orderly (pdt_index v) pt
            (record s { tables = put_table pt (clear_page v (s.tables pt)) s.tables })
            (clear_page-Orderly v pt s o))
    ]

pub free_page-Orderly :
    (v : ℕ) (phys_free : Bool) (s : Paging) → Orderly s → Orderly (free_page v phys_free s)
unfolding free_page
free_page-Orderly v phys_free s o = elim (Bool-cases (translate v s == 0)) [
  | inl e ↦ rw e o
  | inr e ↦ rw e (free_mapped-Orderly v _ (freed phys_free))
]
  where
    freed :
        (b : Bool)
        → Orderly (
            if b
            then record s {
              pfa = Frames.free (large (s.entries (pdt_index v))) (translate v s) s.pfa;
            }
            else s)
    freed true = with_pfa-Orderly _ s o
    freed false = o
