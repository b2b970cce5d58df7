-- ===== src/Frames/Setup/ReadMap.antt =====
-- What `pfa_read_map` marks and what it frees.
use stable_genius.Common.{
  ℕ, zero, suc, ◌+◌, ◌*◌, ◌/◌, ◌^◌, ◌⊎◌, inl, inr, ◌≡◌, ◌<◌, ◌≤◌, refl, Bool, true, false, ◌&&◌,
  ◌||◌, ltb, leb, ◌==◌, if◌then◌else◌, arith, List, [], ◌∷◌, ◌++◌,
}
use native.Mathlib.Decide.{dec_lt}
use stable_genius.Frames.{Bitmap, Frames, fill, page_size, number_of_pages, page_used}
use stable_genius.Frames.Setup.{
  MultiBootMap, MemType, available, invalid, page_up, page_down, end_addr, unwrap_end, use_entry,
  free_entries, use_entries, merge_words, copy_words, pfa_read_map,
}
use stable_genius.Frames.Setup.Initial.{page_used-make_used, touches-region}

pub page_used-fill :
    (v : Bool) (m : Bitmap) (w i : ℕ)
    → page_used (fill v m w) i ≡ (if i / 32 == w then v else page_used m i)
unfolding fill
page_used-fill v m w i = refl

merge_words_lem :
    (n w : ℕ) (old m : Bitmap) (i : ℕ)
    → page_used (merge_words n w old m) i
      ≡ (page_used m i || ((leb (w * 32) i && ltb i ((w + n) * 32)) && page_used old i))
unfolding merge_words
merge_words_lem zero w old m i = ground arith
merge_words_lem (suc n) w old m i =
    ground
      (arith, merge_words_lem n (w + 1) old (λ k b. if k == w then m k b || old k b else m k b) i)

copy_words_lem :
    (n w : ℕ) (src m : Bitmap) (i : ℕ)
    → page_used (copy_words n w src m) i
      ≡ (if leb (w * 32) i && ltb i ((w + n) * 32) then page_used src i else page_used m i)
unfolding copy_words
copy_words_lem zero w src m i = ground arith
copy_words_lem (suc n) w src m i =
    ground (arith, copy_words_lem n (w + 1) src (λ k b. if k == w then src k b else m k b) i)

-- The first map that is read decides the bitmap: what its entries leave used, and what was used
-- below the old size of the memory.
pub page_used-pfa_read_map :
    (es : List MultiBootMap) (f : Frames) (i : ℕ)
    → f.mapped ≡ false
    → i < number_of_pages
    → page_used (pfa_read_map es f).used_pages i ≡ (
        page_used (use_entries es (free_entries es ((λ k b. true), f.mem_size))).0 i
        || (ltb i (f.mem_size / (page_size * 32) * 32) && page_used f.used_pages i))
unfolding pfa_read_map
page_used-pfa_read_map es f i fresh bound =
    let m = (use_entries es (free_entries es ((λ k b. true), f.mem_size))).0 in
    let temp_used = merge_words (f.mem_size / (page_size * 32)) 0 f.used_pages m in
    ground (
      arith,
      copy_words_lem (number_of_pages / 32) 0 temp_used f.used_pages i,
      merge_words_lem (f.mem_size / (page_size * 32)) 0 f.used_pages m i,
    )

-- A page that was used below the size of the memory, such as one of the kernel or its heap, is used
-- still when the first map has been read.
pfa_read_map-keeps :
    (es : List MultiBootMap) (f : Frames) (i : ℕ)
    → f.mapped ≡ false
    → i < number_of_pages
    → i < f.mem_size / (page_size * 32) * 32
    → page_used f.used_pages i ≡ true
    → page_used (pfa_read_map es f).used_pages i ≡ true
pfa_read_map-keeps es f i fresh bound low used =
    ground (arith, page_used-pfa_read_map es f i fresh bound)

-- The pages of a region of the map, rounded outwards.
abbrev pub OuterRegion : MultiBootMap → ℕ → Type 0
OuterRegion e i =
    (page_down e.base_addr ≤ i) × (i < unwrap_end (page_down e.base_addr) (page_up (end_addr e)))

-- The entry describes memory that is not available.
abbrev pub reserves : MemType → Bool
reserves available = false
reserves invalid = false
reserves _ = true

use_entry-keeps :
    (e : MultiBootMap) (s : Bitmap × ℕ) (i : ℕ)
    → page_used s.0 i ≡ true
    → page_used (use_entry e s).0 i ≡ true
unfolding use_entry
use_entry-keeps e (m, size) i h = ground (
  arith,
  page_used-make_used (page_down e.base_addr)
      (unwrap_end (page_down e.base_addr) (page_up (end_addr e))) m i,
)

pub use_entries-keeps :
    (es : List MultiBootMap) (s : Bitmap × ℕ) (i : ℕ)
    → page_used s.0 i ≡ true
    → page_used (use_entries es s).0 i ≡ true
unfolding use_entries
use_entries-keeps [] s i h = h
use_entries-keeps (e ∷ es) s i h = use_entries-keeps es (use_entry e s) i (use_entry-keeps e s i h)

use_entry-marks :
    (e : MultiBootMap) (s : Bitmap × ℕ) (i : ℕ)
    → reserves e.mtype ≡ true
    → OuterRegion e i
    → page_used (use_entry e s).0 i ≡ true
unfolding use_entry
use_entry-marks e (m, size) i h at =
    let low = page_down e.base_addr in
    let high = unwrap_end low (page_up (end_addr e)) in
    ground (arith, page_used-make_used low high m i, touches-region low high i at.0 at.1)

use_entries-marks :
    (before : List MultiBootMap) (e : MultiBootMap) (after : List MultiBootMap) (s : Bitmap × ℕ)
    (i : ℕ)
    → reserves e.mtype ≡ true
    → OuterRegion e i
    → page_used (use_entries (before ++ (e ∷ after)) s).0 i ≡ true
unfolding use_entries
use_entries-marks [] e after s i h at =
    use_entries-keeps after (use_entry e s) i (use_entry-marks e s i h at)
use_entries-marks (b ∷ before) e after s i h at =
    use_entries-marks before e after (use_entry b s) i h at

-- A byte of the entry's memory lies on the page.
abbrev pub Touches : MultiBootMap → ℕ → Type 0
Touches e i = (x : ℕ) × (e.base_addr ≤ x) × (x < e.base_addr + e.length) × (x / page_size ≡ i)

-- The end that the code rounds up lies behind every byte of the region.
below-page_up : (x end : ℕ) → x < end → x / page_size < page_up end
below-page_up x end h = ground arith

-- A region from page 0 up to 4GB is the only one that the code takes for an empty one.
Touches-OuterRegion :
    (e : MultiBootMap) (i : ℕ)
    → e.base_addr + e.length ≤ 2 ^ 32
    → (page_size ≤ e.base_addr) ⊎ (e.base_addr + e.length < 2 ^ 32)
    → Touches e i
    → OuterRegion e i
Touches-OuterRegion e i ends apart (x, above, below, on) =
    elim (dec_lt (e.base_addr + e.length) (2 ^ 32)) [
      | yes inside ↦
          let end : end_addr e ≡ e.base_addr + e.length = omega arith in
          let up = below-page_up x (e.base_addr + e.length) below in
          (omega arith, rw end (ground (arith, up, on)))
      | no whole ↦
          let end : end_addr e ≡ 0 = omega arith in
          let low : page_size ≤ e.base_addr = elim apart [
            | inl far ↦ far
            | inr inside ↦ absurd (whole inside)
          ] in
          (omega arith, rw end (ground (arith, low, on)))
    ]

-- When the first map has been read, every page that holds a byte of an entry of a reserved kind is used,
-- whatever the other entries of the map say. The entry ends at 4GB at the latest, and ends below 4GB if it
-- starts on page 0.
pub pfa_read_map-reserves :
    (before : List MultiBootMap) (e : MultiBootMap) (after : List MultiBootMap) (f : Frames) (i : ℕ)
    → f.mapped ≡ false
    → reserves e.mtype ≡ true
    → e.base_addr + e.length ≤ 2 ^ 32
    → (page_size ≤ e.base_addr) ⊎ (e.base_addr + e.length < 2 ^ 32)
    → Touches e i
    → page_used (pfa_read_map (before ++ (e ∷ after)) f).used_pages i ≡ true
pfa_read_map-reserves before e after f i fresh h ends short on =
    let es = before ++ (e ∷ after) in
    let s : Bitmap × ℕ = free_entries es ((λ k b. true), f.mem_size) in
    let at = Touches-OuterRegion e i ends short on in
    let (x, above, below, page) = on in
    let bound : i < number_of_pages = omega arith in
    ground
      (arith, page_used-pfa_read_map es f i fresh bound, use_entries-marks before e after s i h at)
