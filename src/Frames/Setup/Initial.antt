-- ===== src/Frames/Setup/Initial.antt =====
-- What `pfa_initialise` marks.
use stable_genius.Common.{
  ℕ, ◌+◌, ◌-◌, ◌*◌, ◌/◌, ◌%◌, ◌^◌, ◌≡◌, ◌<◌, ◌≤◌, Bool, true, false, ◌&&◌, ◌||◌, ltb, leb,
  if◌then◌else◌, arith, ◌⊎◌,
}
use stable_genius.Frames.{
  Bitmap, Frames, mark_from, fill_from, page_size, number_of_pages, page_used,
}
use stable_genius.Frames.Setup.{initial_pages, pfa_initialise, make_used}
use stable_genius.Frames.Bits.{page_used-mark_from, fill_from_lem}

pub page_used-fill_from :
    (v : Bool) (n w : ℕ) (m : Bitmap) (i : ℕ)
    → page_used (fill_from v n w m) i
      ≡ (if leb (w * 32) i && ltb i ((w + n) * 32) then v else page_used m i)
page_used-fill_from v n w m i = ground (arith, fill_from_lem v n w m (i / 32) (i % 32))

-- The pages that the marking of a region touches: the rest of its first word, the words between,
-- and its last word up to the end of the region.
abbrev pub touches : (low high i : ℕ) → Bool
touches low high i =
    (leb low i && ltb i ((low / 32 + 1) * 32))
    || (leb ((low / 32 + 1) * 32) i && ltb i (high / 32 * 32))
    || (leb (high / 32 * 32) i && ltb i high)

pub page_used-make_used :
    (low high : ℕ) (m : Bitmap) (i : ℕ)
    → page_used (make_used low high m) i ≡ (touches low high i || page_used m i)
unfolding make_used
page_used-make_used low high m i =
    let m1 = mark_from ((low / 32 + 1) * 32 - low) low m in
    let m2 = fill_from true (high / 32 - (low / 32 + 1)) (low / 32 + 1) m1 in
    ground (
      arith,
      page_used-mark_from (high - high / 32 * 32) (high / 32 * 32) m2 i,
      page_used-fill_from true (high / 32 - (low / 32 + 1)) (low / 32 + 1) m1 i,
      page_used-mark_from ((low / 32 + 1) * 32 - low) low m i,
    )

-- A region is touched from its first page to its last.
pub touches-region : (low high i : ℕ) → low ≤ i → i < high → touches low high i ≡ true
touches-region low high i a b = ground arith

-- A region that is not empty is touched within the words that it meets.
pub touches-outside :
    (low high i : ℕ)
    → low < high
    → (i < low / 32 * 32) ⊎ (((high + 31) / 32 * 32) ≤ i)
    → touches low high i ≡ false
touches-outside low high i a b = ground arith

page_used-initial_pages :
    (mem_size kps kpe : ℕ) (m : Bitmap) (i : ℕ)
    → i < number_of_pages
    → page_used (initial_pages mem_size kps kpe m) i ≡ (
        leb (mem_size / (page_size * 32) * 32) i
        || touches (kps / 2 ^ 12) (kpe / 2 ^ 12 + 1) i
        || ltb i 256)
unfolding initial_pages make_used
page_used-initial_pages mem_size kps kpe m i bound =
    let words = mem_size / (page_size * 32) in
    let low = kps / 2 ^ 12 in
    let high = kpe / 2 ^ 12 + 1 in
    let m1 = fill_from false words 0 m in
    let m2 = fill_from true 8 0 m1 in
    let m5 = make_used low high m2 in
    ground (
      arith,
      page_used-fill_from true (number_of_pages / 32 - words) words m5 i,
      page_used-make_used low high m2 i,
      page_used-fill_from true 8 0 m1 i,
      page_used-fill_from false words 0 m i,
    )

-- After the first `pfa_initialise` these pages of the 4GB are used: the first megabyte, the pages of
-- the kernel with both ends, and all that lie above the size assumed for the memory.
pub pfa_initialise-protects :
    (kps kpe : ℕ) (f : Frames) (i : ℕ)
    → f.initialised ≡ false
    → i < number_of_pages
    → (i < 256)
      ⊎ ((kps / page_size ≤ i) × (i ≤ kpe / page_size))
      ⊎ (f.mem_size / (page_size * 32) * 32 ≤ i)
    → page_used (pfa_initialise kps kpe f).used_pages i ≡ true
unfolding pfa_initialise
pfa_initialise-protects kps kpe f i fresh bound why =
    ground (arith, page_used-initial_pages f.mem_size kps kpe f.used_pages i bound)

-- After the first `pfa_initialise` every other page is free, save those that share a word of the
-- bitmap with the kernel, whatever the bitmap held before.
pfa_initialise-frees :
    (kps kpe : ℕ) (f : Frames) (i : ℕ)
    → f.initialised ≡ false
    → kps ≤ kpe
    → i < number_of_pages
    → 256 ≤ i
    → i < f.mem_size / (page_size * 32) * 32
    → (i < kps / page_size / 32 * 32) ⊎ ((kpe / page_size + 32) / 32 * 32 ≤ i)
    → page_used (pfa_initialise kps kpe f).used_pages i ≡ false
unfolding pfa_initialise
pfa_initialise-frees kps kpe f i fresh order bound low high apart = ground (
  arith,
  page_used-initial_pages f.mem_size kps kpe f.used_pages i bound,
  touches-outside (kps / 2 ^ 12) (kpe / 2 ^ 12 + 1) i,
)
