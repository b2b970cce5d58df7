-- ===== src/Frames/Setup/Available.antt =====
-- The available entries of the memory map in `pfa_read_map`: which pages become free.
use stable_genius.Common.{
  ℕ, ◌+◌, ◌-◌, ◌*◌, ◌/◌, ◌≡◌, ◌<◌, ◌≤◌, ◌⊎◌, refl, Bool, true, false, ◌&&◌, ◌||◌, ltb, leb, ◌==◌,
  if◌then◌else◌, arith, List, [], ◌∷◌,
}
use stable_genius.Frames.{
  Bitmap, Frames, mark_from, fill, fill_from, page_size, number_of_pages, page_used,
}
use stable_genius.Frames.Setup.{
  MultiBootMap, MemType, available, make_free, page_up, page_down, end_addr, unwrap_end, free_entry,
  use_entry, free_entries, use_entries, pfa_read_map,
}
use stable_genius.Frames.Bits.{page_used-mark_from}
use stable_genius.Frames.Setup.Initial.{page_used-fill_from}
use stable_genius.Frames.Setup.ReadMap.{page_used-fill, page_used-pfa_read_map, use_entries-keeps}

-- Clearing a region, as a test on the page.
page_used-make_free :
    (low high : ℕ) (m : Bitmap) (i : ℕ)
    → page_used (make_free low high m) i ≡ (
        (leb high i && ltb i ((high / 32 + 1) * 32))
        || (if i / 32 == high / 32
            then false
            else if leb ((low / 32 + 1) * 32) i && ltb i (high / 32 * 32)
            then false
            else (leb (low / 32 * 32) i && ltb i low)
              || (if i / 32 == low / 32 then false else page_used m i)))
unfolding make_free
page_used-make_free low high m0 i =
    let m1 = fill false m0 (low / 32) in
    let m2 = mark_from (low - low / 32 * 32) (low / 32 * 32) m1 in
    let m3 = fill_from false (high / 32 - (low / 32 + 1)) (low / 32 + 1) m2 in
    let m4 = fill false m3 (high / 32) in
    ground (
      arith,
      page_used-mark_from ((high / 32 + 1) * 32 - high) high m4 i,
      page_used-fill false m3 (high / 32) i,
      page_used-fill_from false (high / 32 - (low / 32 + 1)) (low / 32 + 1) m2 i,
      page_used-mark_from (low - low / 32 * 32) (low / 32 * 32) m1 i,
      page_used-fill false m0 (low / 32) i,
    )

-- A region that meets two words at least frees no page outside itself.
make_free-keeps :
    (low high : ℕ) (m : Bitmap) (i : ℕ)
    → low / 32 < high / 32
    → leb low i && ltb i high ≡ false
    → page_used m i ≡ true
    → page_used (make_free low high m) i ≡ true
make_free-keeps low high m i wide out h = ground (arith, page_used-make_free low high m i)

-- The first and the end page of an available region, rounded inwards.
abbrev pub inner_low : MultiBootMap → ℕ
inner_low e = page_up e.base_addr

abbrev pub inner_high : MultiBootMap → ℕ
inner_high e = unwrap_end (inner_low e) (page_down (end_addr e))

-- Whether the entry offers page `i` as available memory.
abbrev pub offers : MemType → (low high i : ℕ) → Bool
offers available low high i = leb low i && ltb i high
offers _ low high i = false

abbrev pub any_offers : List MultiBootMap → ℕ → Bool
any_offers [] i = false
any_offers (e ∷ es) i = offers e.mtype (inner_low e) (inner_high e) i || any_offers es i

-- Every available region meets two words of the bitmap at least.
abbrev pub AllWide : List MultiBootMap → Type 0
AllWide [] = Unit {0}
AllWide (e ∷ es) = (inner_low e / 32 < inner_high e / 32) × AllWide es

free_entry-keeps :
    (e : MultiBootMap) (s : Bitmap × ℕ) (i : ℕ)
    → inner_low e / 32 < inner_high e / 32
    → offers e.mtype (inner_low e) (inner_high e) i ≡ false
    → page_used s.0 i ≡ true
    → page_used (free_entry e s).0 i ≡ true
unfolding free_entry
free_entry-keeps e (m, size) i wide out h =
    ground (arith, make_free-keeps (inner_low e) (inner_high e) m i wide)

free_entries-keeps :
    (es : List MultiBootMap) (s : Bitmap × ℕ) (i : ℕ)
    → AllWide es
    → any_offers es i ≡ false
    → page_used s.0 i ≡ true
    → page_used (free_entries es s).0 i ≡ true
unfolding free_entries
free_entries-keeps [] s i wide out h = h
free_entries-keeps (e ∷ es) s i wide out h =
    free_entries-keeps es (free_entry e s) i wide.1 (ground arith)
      (free_entry-keeps e s i wide.0 (ground arith) h)

-- If every entry meets two words of the bitmap at least, then a page that no available entry offers
-- is used when the first map has been read.
pfa_read_map-unoffered :
    (es : List MultiBootMap) (f : Frames) (i : ℕ)
    → f.mapped ≡ false
    → i < number_of_pages
    → AllWide es
    → any_offers es i ≡ false
    → page_used (pfa_read_map es f).used_pages i ≡ true
pfa_read_map-unoffered es f i fresh bound wide out =
    let s : Bitmap × ℕ = ((λ k b. true), f.mem_size) in
    let kept =
      use_entries-keeps es (free_entries es s) i (free_entries-keeps es s i wide out refl) in
    ground (arith, page_used-pfa_read_map es f i fresh bound, kept)

-- If the map is one available region inside one word of the bitmap, then a page of that word below
-- the region is free when the map has been read, though no entry offers it, unless it was used and
-- lies below the old size of the memory.
pub pfa_read_map-narrow :
    (e : MultiBootMap) (f : Frames) (i : ℕ)
    → f.mapped ≡ false
    → i < number_of_pages
    → e.mtype ≡ available
    → inner_low e / 32 ≡ inner_high e / 32
    → i / 32 ≡ inner_low e / 32
    → i < inner_low e
    → inner_low e < inner_high e
    → (f.mem_size / (page_size * 32) * 32 ≤ i) ⊎ (page_used f.used_pages i ≡ false)
    → (any_offers (e ∷ []) i ≡ false) × (page_used (pfa_read_map (e ∷ []) f).used_pages i ≡ false)
unfolding free_entries free_entry use_entries use_entry
pfa_read_map-narrow e f i fresh bound kind narrow here below proper old = (
  ground arith,
  ground (
    arith,
    page_used-pfa_read_map (e ∷ []) f i fresh bound,
    page_used-make_free (inner_low e) (inner_high e) (λ k b. true) i,
  ),
)
