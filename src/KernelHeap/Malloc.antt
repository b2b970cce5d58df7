-- ===== src/KernelHeap/Malloc.antt =====
-- `next_page`, `new_block`, `malloc` and `free` of kernel/cpp/KernelHeap.cpp.
use stable_genius.Common.{
  ℕ, zero, suc, ◌+◌, ◌^◌, Bool, true, false, not, ◌&&◌, Option, none, some, ltb, leb, ◌==◌,
  if◌then◌else◌,
}
use stable_genius.UserHeap.{add32, sub32, heap_align, align_up}
use stable_genius.KernelHeap.{
  KernelMemory, put_block, KernelHeap, heap_page, align_power, round_up, block_rounds,
  find_kernel_block,
}

-- The page tables give the page at `next_page_addr`, or none, which is a panic; the heap behind it, and
-- whether giving it has called `next_page` on the way.
abbrev pub Pages : Type 0
Pages = KernelHeap → Option (KernelHeap × Bool)

-- `next_page`
unfoldable pub next_page : Pages → KernelHeap → Option KernelHeap
next_page allocate h = elim (allocate h) [
  | none ↦ none
  | some (h', recursive_call) ↦
      if recursive_call
      then some h'
      else some (record h' { next_page_addr = add32 h'.next_page_addr heap_page })
]

-- The loop over the pages that a new block needs, on fuel
unfoldable pub take_pages : Pages → (fuel need : ℕ) → KernelHeap → Option KernelHeap
take_pages allocate zero need h = none
take_pages allocate (suc n) need h =
    let rest : Option KernelHeap = elim (next_page allocate h) [
      | none ↦ none
      | some h' ↦ take_pages allocate n need h'
    ] in
    if ltb (add32 (add32 h.last h.data_size) need) h.next_page_addr then some h else rest

-- `while (prev->next != prev_last) prev = prev->next;`, on fuel
unfoldable pub find_prev : (fuel : ℕ) → KernelMemory → (prev prev_last : ℕ) → Option ℕ
find_prev zero m prev prev_last = none
find_prev (suc n) m prev prev_last =
    let rest = find_prev n m (m prev).next prev_last in
    if (m prev).next == prev_last then some prev else rest

-- The space before the aligned address becomes a free block.
unfoldable pub fill_gap : (new ls : ℕ) → KernelHeap → KernelHeap
fill_gap new ls h =
    let m1 =
      put_block h.last (record (h.mem h.last) { next = new; free = true; size = sub32 new ls })
        h.mem in
    record h {
      last = new;
      mem = put_block new (record (m1 new) { next = 0; free = true; size = 0 }) m1;
    }

-- The last block moves up, and the one before it grows.
unfoldable pub move_last : (new : ℕ) → KernelHeap → Option KernelHeap
move_last new h =
    let m1 = put_block new (record (h.mem new) { free = true; next = 0; size = 0 }) h.mem in
    if h.start == h.last
    then some (record h { start = new; last = new; mem = m1 })
    else elim (find_prev (block_rounds h) m1 h.start h.last) [
      | none ↦ none
      | some prev ↦ some (record h {
        last = new;
        mem =
            put_block prev
              (record (m1 prev) { next = new; size = sub32 (sub32 new prev) h.data_size }) m1;
      })
    ]

unfoldable pub align_last : (align : ℕ) → KernelHeap → Option KernelHeap
align_last align h =
    let ls = add32 h.last h.data_size in
    let as' = round_up (align_power align) ls in
    let new = sub32 as' h.data_size in
    if align == 0
    then some h
    else if leb (h.data_size + heap_align) (sub32 new ls)
    then some (fill_gap new ls h)
    else move_last new h

-- The last block is given out, and a new one stands behind it.
unfoldable pub give_last : (size : ℕ) → KernelHeap → KernelHeap × ℕ
give_last size h =
    let prev_last = h.last in
    let m1 = put_block prev_last (record (h.mem prev_last) { size = size; free = false }) h.mem in
    let end = add32 (add32 prev_last size) h.data_size in
    let m2 = put_block end (record (m1 end) { size = 0; free = true; next = 0 }) m1 in
    (
      record h { last = end; mem = put_block prev_last (record (m2 prev_last) { next = end }) m2 },
      prev_last,
    )

-- `new_block(size, align)`; the address space has 2 ^ 20 pages.
unfoldable pub new_kernel_block : Pages → (size align : ℕ) → KernelHeap → Option (KernelHeap × ℕ)
new_kernel_block allocate size align h = elim (take_pages allocate (2 ^ 20) (add32 size align) h) [
  | none ↦ none
  | some h' ↦ elim (align_last align h') [ none ↦ none | some g ↦ some (give_last size g) ]
]

-- The magic number of the block, and the address behind its header
unfoldable pub mark_magic : (magic : ℕ) → KernelHeap × ℕ → KernelHeap × ℕ
mark_magic magic (h, result) =
    let addr = add32 result h.data_size in
    if result == 0
    then (h, addr)
    else (record h { mem = put_block result (record (h.mem result) { magic = magic }) h.mem }, addr)

unfoldable pub or_new_block : Pages → (size align : ℕ) → KernelHeap × ℕ → Option (KernelHeap × ℕ)
or_new_block allocate size align (h, result) =
    if result == h.last then new_kernel_block allocate size align h else some (h, result)

-- `malloc(size, align, magic)`
unfoldable pub kernel_malloc : Pages → (size align magic : ℕ) → KernelHeap → Option (KernelHeap × ℕ)
kernel_malloc allocate size align magic h =
    let n = align_up size in
    if size == 0 then some (h, 0) else elim (find_kernel_block n align h) [
      | none ↦ none
      | some r ↦ elim (or_new_block allocate n align r) [
        | none ↦ none
        | some r' ↦ some (mark_magic magic r')
      ]
    ]

-- The loop of `free`, on fuel
pub merge_kernel : (fuel : ℕ) → KernelMemory → (data_size current : ℕ) → Option KernelMemory
merge_kernel zero m ds cur = none
merge_kernel (suc n) m ds cur =
    let b = m cur in
    let c = m b.next in
    let m' = put_block cur (record b { size = add32 b.size (add32 ds c.size); next = c.next }) m in
    let rest = merge_kernel n m' ds cur in if c.free && not (c.next == 0) then rest else some m

-- `free(addr)`
unfoldable pub kernel_free : ℕ → KernelHeap → Option KernelHeap
kernel_free addr h =
    let cur = sub32 addr h.data_size in
    let m = put_block cur (record (h.mem cur) { free = true; magic = 0 }) h.mem in
    if addr == 0 then some h else elim (merge_kernel (block_rounds h) m h.data_size cur) [
      | none ↦ none
      | some m' ↦ some (record h { mem = m' })
    ]
