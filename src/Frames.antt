-- ===== src/Frames.antt =====
-- kernel/cpp/PageFrameAllocator.cpp and kernel/include/PageFrameAllocator.h: the bitmap of physical
-- 4KB pages. A 32-bit word of `used_pages` is the function from its bit positions, so that `|=` and
-- `&=` with one bit set or clear that position; an index out of range faults in no operation here,
-- as it does in none of `klib::array`.
pub mod Bits
pub mod Small
pub mod History
pub mod Large
pub mod Setup
use stable_genius.Common.{
  ℕ, zero, suc, ◌+◌, ◌-◌, ◌*◌, ◌/◌, ◌%◌, ◌^◌, ◌≡◌, Bool, true, false, not, Option, none, some, ltb,
  ◌==◌, if◌then◌else◌, first_from, is_some,
}

abbrev pub Word : Type 0
Word = ℕ → Bool

-- `used_pages`, by word and by bit.
abbrev pub Bitmap : Type 0
Bitmap = ℕ → Word

abbrev pub number_of_pages : ℕ
number_of_pages = 1048576

abbrev pub page_size : ℕ
page_size = 4096

abbrev pub large_page_size : ℕ
large_page_size = 4194304

-- `used_pages[i/32] & (1 << (i % 32))`
abbrev pub page_used : Bitmap → ℕ → Bool
page_used m i = m (i / 32) (i % 32)

-- `used_pages[i/32] |= 1 << (i % 32)`
unfoldable pub mark : Bitmap → ℕ → Bitmap
mark m i k b = if k == i / 32 then (if b == i % 32 then true else m k b) else m k b

-- `used_pages[i/32] &= ~(1 << (i % 32))`
pub unmark : Bitmap → ℕ → Bitmap
unmark m i k b = if k == i / 32 then (if b == i % 32 then false else m k b) else m k b

-- `used_pages[w] = 0xFFFFFFFF` and `used_pages[w] = 0`
unfoldable pub fill : Bool → Bitmap → ℕ → Bitmap
fill v m w k b = if k == w then v else m k b

-- `for (i = start; i < start + rounds; ++i) used_pages[i/32] |= 1 << (i % 32);`
pub mark_from : (rounds start : ℕ) → Bitmap → Bitmap
mark_from zero i m = m
mark_from (suc n) i m = mark_from n (i + 1) (mark m i)

-- `for (w = start; w < start + rounds; ++w) used_pages[w] = v;`
pub fill_from : Bool → (rounds start : ℕ) → Bitmap → Bitmap
fill_from v zero w m = m
fill_from v (suc n) w m = fill_from v n (w + 1) (fill v m w)

-- The state of the allocator: the static members, and `last_alloc` of the one object.
pub record Frames : Type 0 where
  pub used_pages : Bitmap
  pub mem_size : ℕ
  pub kernel_physical_start : ℕ
  pub kernel_physical_end : ℕ
  pub initialised : Bool
  pub mapped : Bool
  pub last_alloc : ℕ

-- `check(addr, false)` and `check(addr, true)`. The large test looks at the 1024 pages of the large
-- page and stops at the first that is used.
unfoldable pub check_small : Bitmap → ℕ → Bool
check_small m addr = page_used m (addr / 2 ^ 12)

unfoldable pub check_large : Bitmap → ℕ → Bool
check_large m addr =
    is_some
      (first_from (page_used m) (large_page_size / page_size) (addr / 2 ^ 12 / 2 ^ 10 * 2 ^ 10))

-- `!check(reinterpret_cast<void*>(test * page_size))`, and the same for a large page
abbrev pub free_small : Bitmap → ℕ → Bool
free_small m test = not (check_small m (test * page_size % 2 ^ 32))

abbrev pub free_large : Bitmap → ℕ → Bool
free_large m test = not (check_large m (test * large_page_size % 2 ^ 32))

-- The two searches of `allocate(false)`. The second breaks at its first round, whatever it found.
unfoldable pub find_small : Frames → Option ℕ
find_small f =
    elim (first_from (free_small f.used_pages) (number_of_pages - (f.last_alloc + 1))
      (f.last_alloc + 1)) [
        | some loc ↦ some loc
        | none ↦ if free_small f.used_pages 0 then some 0 else none
      ]

-- The two searches of `allocate(true)`, below and above the rounded `last_alloc`.
unfoldable pub find_large : Frames → Option ℕ
find_large f =
    let boundary = f.last_alloc / 2 ^ 10 + 1 in
    elim (first_from (free_large f.used_pages) (number_of_pages / 2 ^ 10 - boundary) boundary) [
      | some loc ↦ some loc
      | none ↦ first_from (free_large f.used_pages) boundary 0
    ]

-- `for (i = loc; i < loc + 1024; i += 32) used_pages[i/32] = 0xFFFFFFFF;`
unfoldable pub fill_large : (rounds i : ℕ) → Bitmap → Bitmap
fill_large zero i m = m
fill_large (suc n) i m = fill_large n (i + 32) (fill true m (i / 32))

-- The result of a call is the address, which is 0 where the source returns `nullptr`.
unfoldable pub allocate : Bool → Frames → Frames × ℕ
allocate false f = elim (find_small f) [
  | none ↦ (f, 0)
  | some loc ↦
      (record f { last_alloc = loc; used_pages = mark f.used_pages loc }, loc * page_size % 2 ^ 32)
]
allocate true f = elim (find_large f) [
  | none ↦ (f, 0)
  | some loc ↦ (
    record f {
      last_alloc = loc;
      used_pages = fill_large (large_page_size / page_size / 32) loc f.used_pages;
    },
    loc * large_page_size % 2 ^ 32,
  )
]

-- `free(phys_addr, large)`. The large form uses the number of a 4KB page as the index of a word.
pub free : Bool → ℕ → Frames → Frames
free true addr f = record f {
  used_pages =
      fill_from false (large_page_size / (32 * page_size)) (addr / 2 ^ 22 * 2 ^ 10) f.used_pages;
}
free false addr f = record f { used_pages = unmark f.used_pages (addr / 2 ^ 12) }
