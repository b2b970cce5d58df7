-- ===== src/Frames/Setup.antt =====
-- `pfa_initialise` and `pfa_read_map` of kernel/cpp/PageFrameAllocator.cpp: which pages the bitmap
-- shows as used before the first allocation.
pub mod Initial
pub mod ReadMap
pub mod Available
use stable_genius.Common.{
  ℕ, zero, suc, ◌+◌, ◌-◌, ◌*◌, ◌/◌, ◌%◌, ◌^◌, ◌≡◌, Bool, true, false, not, ◌&&◌, ◌||◌, ltb, ◌==◌,
  if◌then◌else◌, List, [], ◌∷◌,
}
use stable_genius.Frames.{
  Bitmap, Frames, mark_from, fill_from, fill, page_size, number_of_pages, page_used,
}

-- `pfa_initialise(kps, kpe)`; a loop from `a` to `b` runs `b - a` rounds.
pub initial_pages : (mem_size kps kpe : ℕ) → Bitmap → Bitmap
initial_pages mem_size kps kpe m0 =
    let words = mem_size / (page_size * 32) in
    let low = kps / 2 ^ 12 in
    let high = kpe / 2 ^ 12 + 1 in
    let m1 = fill_from false words 0 m0 in
    let m2 = fill_from true 8 0 m1 in
    let m3 = mark_from ((low / 32 + 1) * 32 - low) low m2 in
    let m4 = fill_from true (high / 32 - (low / 32 + 1)) (low / 32 + 1) m3 in
    let m5 = mark_from (high - high / 32 * 32) (high / 32 * 32) m4 in
    fill_from true (number_of_pages / 32 - words) words m5

pub pfa_initialise : ℕ → ℕ → Frames → Frames
pfa_initialise kps kpe f = if f.initialised then f else record f {
  kernel_physical_start = kps;
  kernel_physical_end = kpe;
  used_pages = initial_pages f.mem_size kps kpe f.used_pages;
  initialised = true;
}

-- `MultiBootMap::MemType`
pub data MemType : Type 0 where
  available acpi hibernate defective reserved invalid : MemType

-- An entry of the boot loader's memory map.
pub record MultiBootMap : Type 0 where
  pub base_addr : ℕ
  pub length : ℕ
  pub mtype : MemType

-- Rounding to a page boundary, down and up.
abbrev pub page_down : ℕ → ℕ
page_down a = a / page_size

abbrev pub page_up : ℕ → ℕ
page_up a = if a % page_size == 0 then a / page_size else a / page_size + 1

-- The end of an entry wraps at 4GB; an end page of 0 then means the end of the memory.
abbrev pub end_addr : MultiBootMap → ℕ
end_addr e = (e.base_addr + e.length) % 2 ^ 32

abbrev pub unwrap_end : (low high : ℕ) → ℕ
unwrap_end low high = if high == 0 && not (low == 0) then 2 ^ 20 else high

-- The body of the first loop, for an available entry: the words that the region touches are
-- cleared, and the pages below and above it in the outer two words are marked.
pub make_free : (low high : ℕ) → Bitmap → Bitmap
make_free low high m0 =
    let m1 = fill false m0 (low / 32) in
    let m2 = mark_from (low - low / 32 * 32) (low / 32 * 32) m1 in
    let m3 = fill_from false (high / 32 - (low / 32 + 1)) (low / 32 + 1) m2 in
    let m4 = fill false m3 (high / 32) in mark_from ((high / 32 + 1) * 32 - high) high m4

-- The body of the second loop, for an entry that is not available.
pub make_used : (low high : ℕ) → Bitmap → Bitmap
make_used low high m0 =
    let m1 = mark_from ((low / 32 + 1) * 32 - low) low m0 in
    let m2 = fill_from true (high / 32 - (low / 32 + 1)) (low / 32 + 1) m1 in
    mark_from (high - high / 32 * 32) (high / 32 * 32) m2

-- A round of each loop: the bitmap and the size of the memory seen so far.
pub free_entry : MultiBootMap → Bitmap × ℕ → Bitmap × ℕ
free_entry e (m, size) =
    let low = page_up e.base_addr in
    let high = unwrap_end low (page_down (end_addr e)) in
    elim e.mtype [
      | available ↦ (make_free low high m, if ltb size (end_addr e) then end_addr e else size)
      | _ ↦ (m, size)
    ]

pub use_entry : MultiBootMap → Bitmap × ℕ → Bitmap × ℕ
use_entry e (m, size) =
    let low = page_down e.base_addr in
    let high = unwrap_end low (page_up (end_addr e)) in
    elim e.mtype [
      | available ↦ (m, size)
      | invalid ↦ (m, size)
      | _ ↦ (make_used low high m, if ltb size (end_addr e) then end_addr e else size)
    ]

pub free_entries : List MultiBootMap → Bitmap × ℕ → Bitmap × ℕ
free_entries [] s = s
free_entries (e ∷ es) s = free_entries es (free_entry e s)

pub use_entries : List MultiBootMap → Bitmap × ℕ → Bitmap × ℕ
use_entries [] s = s
use_entries (e ∷ es) s = use_entries es (use_entry e s)

-- `for (w = start; w < start + rounds; ++w) temp_used[w] |= used_pages[w];` and the copy back.
pub merge_words : (rounds start : ℕ) → Bitmap → Bitmap → Bitmap
merge_words zero w old m = m
merge_words (suc n) w old m =
    merge_words n (w + 1) old λ k b. if k == w then m k b || old k b else m k b

pub copy_words : (rounds start : ℕ) → Bitmap → Bitmap → Bitmap
copy_words zero w src m = m
copy_words (suc n) w src m = copy_words n (w + 1) src λ k b. if k == w then src k b else m k b

pub pfa_read_map : List MultiBootMap → Frames → Frames
pfa_read_map entries f =
    if f.mapped
    then f
    else let all_used : Bitmap = λ k b. true in
      let (m, size) = use_entries entries (free_entries entries (all_used, f.mem_size)) in
      let temp_used = merge_words (f.mem_size / (page_size * 32)) 0 f.used_pages m in
      record f {
        used_pages = copy_words (number_of_pages / 32) 0 temp_used f.used_pages;
        mem_size = size;
        mapped = true;
      }
