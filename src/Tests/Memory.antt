-- ===== src/Tests/Memory.antt =====
-- kernel/cpp/PageFrameAllocator.cpp at concrete bitmaps and memory maps.
use stable_genius.Common.{
  ◌*◌, ◌≡◌, ◌&&◌, ◌==◌, refl, true, false, not, [], ◌∷◌, ◌++◌, inl, inr, arith, first_from,
}
use stable_genius.Frames.{
  Frames, page_used, allocate, find_small, find_large, check_small, check_large, page_size,
  large_page_size,
}
use stable_genius.Frames.Small
use stable_genius.Frames.Small.{Grants}
use stable_genius.Frames.History
use stable_genius.Frames.History.{AllDistinct, allocate_times}
use stable_genius.Frames.Setup.{MultiBootMap, available, reserved, pfa_initialise, pfa_read_map}
use stable_genius.Frames.Setup.Initial
use stable_genius.Frames.Setup.ReadMap

-- 64MB, nothing used, the search begins at 4MB.
abbrev unused : Frames
unused = record {
  used_pages = λ k b. false;
  mem_size = 0x400_0000;
  kernel_physical_start = 0;
  kernel_physical_end = 0;
  initialised = false;
  mapped = false;
  last_alloc = 1024;
}

-- Page 5 alone is free.
abbrev five_free : Frames
five_free = record unused { used_pages = λ k b. not (k == 0 && b == 5) }

abbrev all_used : Frames
all_used = record unused { used_pages = λ k b. true }

-- After a large allocation `last_alloc` is the number of a large page.
abbrev from_zero : Frames
from_zero = record unused { last_alloc = 0 }

first_address : (allocate false unused).1 ≡ 1025 * page_size
unfolding allocate find_small first_from check_small
first_address = refl

first_large_address : (allocate true from_zero).1 ≡ large_page_size
unfolding allocate find_large first_from check_large
first_large_address = refl

allocate_small-Grants_example : Grants unused (allocate false unused)
allocate_small-Grants_example = Small.allocate_small-Grants unused (omega (arith, first_address))

allocate_times-AllDistinct_example : AllDistinct (allocate_times 3 unused)
allocate_times-AllDistinct_example = History.allocate_times-AllDistinct 3 unused

-- A kernel from 1MB to 1.5MB.
pfa_initialise-protects_example :
    page_used (pfa_initialise 0x10_0000 0x18_0000 unused).used_pages 384 ≡ true
pfa_initialise-protects_example =
    Initial.pfa_initialise-protects 0x10_0000 0x18_0000 unused 384 refl (omega arith)
      (inr (inl (omega arith, omega arith)))

-- 16MB of memory from 1MB on, reserved memory up to 4GB, and a region of three pages.
abbrev ram : MultiBootMap
ram = record { base_addr = 0x10_0000; length = 0x100_0000; mtype = available }

abbrev firmware : MultiBootMap
firmware = record { base_addr = 0xfffc_0800; length = 0x3_f800; mtype = reserved }

abbrev narrow : MultiBootMap
narrow = record { base_addr = 0x10_5000; length = 0x3000; mtype = available }

pfa_read_map-reserves_example :
    page_used (pfa_read_map ((ram ∷ []) ++ (firmware ∷ [])) unused).used_pages 0xfffff ≡ true
pfa_read_map-reserves_example =
    ReadMap.pfa_read_map-reserves (ram ∷ []) firmware [] unused 0xfffff refl refl (omega arith)
      (inl (omega arith)) (0xffff_f000, omega arith, omega arith, refl)
