-- ===== src/KernelHeap/Overrun.antt =====
-- The aligned search looks at the size of a block before it moves the start of the space up, and not
-- at whether the space still starts inside the block.
use stable_genius.Common.{ℕ, suc, ◌+◌, ◌-◌, ◌/◌, ◌^◌, ◌≤◌, ◌<◌, ◌≡◌, ◌≢◌, true, some, arith, ◌∙◌}
use stable_genius.UserHeap.{add32, sub32, heap_align}
use stable_genius.KernelHeap.{
  KernelHeap, align_power, round_up, aligned_scan, place_space, split_start, move_up, split_end,
  take_found, block_rounds, search_blocks, find_kernel_block,
}
use stable_genius.KernelHeap.Words.{round_up-lt, add32-sub32}

-- Where the search places the space that it found: its data starts at the aligned address.
pub place_space-address :
    (prev cur s as' e : ℕ) (h : KernelHeap)
    → as' ≢ s
    → (place_space prev cur s as' e h).1 ≡ sub32 as' h.data_size
unfolding place_space split_start move_up
place_space-address prev cur s as' e h other = ground (arith, other)

pub place_space-data_size :
    (prev cur s as' e : ℕ) (h : KernelHeap)
    → ((place_space prev cur s as' e h).0.data_size ≡ h.data_size)
      × ((place_space prev cur s as' e h).0.last ≡ h.last)
unfolding place_space split_start move_up
place_space-data_size prev cur s as' e h = (ground arith, ground arith)

pub found-same :
    (size c : ℕ) (h : KernelHeap)
    → ((take_found (split_end size (h, c))).1 ≡ c)
      × ((take_found (split_end size (h, c))).0.data_size ≡ h.data_size)
      × ((take_found (split_end size (h, c))).0.last ≡ h.last)
unfolding take_found split_end
found-same size c h = (ground arith, ground arith, ground arith)

-- A search with an alignment is the aligned search, and what is done to the block found.
pub find-aligned :
    (size align : ℕ) (h : KernelHeap) (p : KernelHeap × ℕ)
    → align ≢ 0
    → aligned_scan (block_rounds h) (align_power align) size h 0 h.start ≡ some p
    → find_kernel_block size align h ≡ some (take_found (split_end size p))
unfolding find_kernel_block search_blocks
find-aligned size align h p some' scan = ground (arith, some', scan)

-- A free block at the start of the heap that is large enough for the size, and that ends before the
-- next aligned address
pub record EndsEarly (h : KernelHeap) (size align : ℕ) : Type 0 where
  pub header : h.data_size < 2 ^ 32
  pub linked : (h.mem h.start).next ≢ 0
  pub free : (h.mem h.start).free ≡ true
  pub large : size ≤ (h.mem h.start).size
  pub fits : h.start + h.data_size + (h.mem h.start).size < 2 ^ 32
  pub early :
      h.start + h.data_size + (h.mem h.start).size
      < round_up (align_power align) (h.start + h.data_size)

first_round :
    (f power size : ℕ) (h : KernelHeap)
    → (h.mem h.start).next ≢ 0
    → (h.mem h.start).free ≡ true
    → size ≤ (h.mem h.start).size
    → h.start + h.data_size + (h.mem h.start).size < 2 ^ 32
    → h.start + h.data_size + (h.mem h.start).size < round_up power (h.start + h.data_size)
    → aligned_scan (suc f) power size h 0 h.start
      ≡ some (
          place_space 0 h.start
            (h.start + h.data_size)
            (round_up power (h.start + h.data_size))
            (h.start + h.data_size + (h.mem h.start).size)
            h)
unfolding aligned_scan
first_round f power size h linked free' large fits early =
    let s : add32 h.start h.data_size ≡ h.start + h.data_size = omega arith in
    let e : add32 (h.start + h.data_size) (h.mem h.start).size
        ≡ h.start + h.data_size + (h.mem h.start).size =
      omega arith in
    let below = round_up-lt power (h.start + h.data_size) in
    rw (s, e) (ground (arith, linked, free', large, fits, early, below))

-- The aligned search gives out space outside of the block that it takes it from: where the first
-- block of the heap is free, is not the last one, has the size that is asked for and ends before
-- the next aligned address, the search ends at it, and the space that it returns starts behind the
-- end of that block.
pub find_kernel_block-overruns :
    (h : KernelHeap) (size align : ℕ)
    → align ≢ 0
    → EndsEarly h size align
    → (h' : KernelHeap) × (c : ℕ) × (find_kernel_block size align h ≡ some (h', c))
      × (h.start + h.data_size + (h.mem h.start).size < add32 c h'.data_size)
unfolding block_rounds
find_kernel_block-overruns h size align some' e =
    let power = align_power align in
    let s = h.start + h.data_size in
    let as' = round_up power s in
    let end = s + (h.mem h.start).size in
    let p = place_space 0 h.start s as' end h in
    let other : as' ≢ s = λ same. absurd (omega (arith, same, e.early)) in
    let rounds : (h.last - h.start) / heap_align + 1 ≡ suc ((h.last - h.start) / heap_align) =
      omega arith in
    let scan =
      first_round ((h.last - h.start) / heap_align) power size h e.linked e.free e.large e.fits
        e.early in
    let (at, ds, _) = found-same size p.1 p.0 in
    let ds' = (place_space-data_size 0 h.start s as' end h).0 in
    let back = add32-sub32 as' h.data_size (round_up-lt power s) e.header in
    let r = take_found (split_end size p) in
    let c : r.1 ≡ sub32 as' h.data_size = at ∙ place_space-address 0 h.start s as' end h other in
    let d : r.0.data_size ≡ h.data_size = ds ∙ ds' in
    let address : add32 r.1 r.0.data_size ≡ as' = rw (c, d) back in
    (r.0, r.1, find-aligned size align h p some' (rw rounds scan), rw address e.early)
