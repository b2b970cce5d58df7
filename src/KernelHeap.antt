-- ===== src/KernelHeap.antt =====
-- kernel/cpp/KernelHeap.cpp and kernel/include/KernelHeap.h: the heap of the kernel, a list of blocks
-- linked through the memory that they stand in. It differs from the heap of a process in the search
-- for aligned space, in the magic number of a block and in the pages, which it takes from the page
-- tables. The memory is the function from the address of a block header to the header; an address or
-- a size is a 32-bit word. `allocate` of kernel/cpp/PageDescriptorTable.cpp, which may use the heap
-- itself, is a parameter.
pub mod Malloc
pub mod Words
pub mod Overrun
pub mod Chain
pub mod Grow
pub mod Aligned
use stable_genius.Common.{
  ℕ, zero, suc, ◌+◌, ◌-◌, ◌*◌, ◌/◌, ◌%◌, ◌^◌, Bool, true, false, not, ◌&&◌, ◌||◌, Option, none,
  some, ltb, leb, ◌==◌, if◌then◌else◌,
}
use stable_genius.UserHeap.{add32, sub32, heap_align, align_up}

pub record KernelBlock : Type 0 where
  pub size : ℕ
  pub next : ℕ
  pub free : Bool
  pub magic : ℕ

abbrev pub KernelMemory : Type 0
KernelMemory = ℕ → KernelBlock

unfoldable pub put_block : ℕ → KernelBlock → KernelMemory → KernelMemory
put_block a b m x = if x == a then b else m x

pub record KernelHeap : Type 0 where
  pub start : ℕ
  pub last : ℕ
  pub next_page_addr : ℕ
  pub data_size : ℕ
  pub mem : KernelMemory

abbrev pub heap_page : ℕ
heap_page = 0x1000

-- `sizeof(BlockData)`: three words, and a `bool` padded to a word
abbrev pub sizeof_kernel_block : ℕ
sizeof_kernel_block = 16

-- `initialise(virt_addr)`
pub initialise : ℕ → KernelHeap → KernelHeap
initialise virt_addr h =
    let v = (sub32 virt_addr 1 / 2 ^ 4 + 1) * 2 ^ 4 % 2 ^ 32 in
    if not (h.start == 0) then h else record h {
      start = v;
      last = v;
      next_page_addr = add32 (v / 2 ^ 12 * 2 ^ 12) heap_page;
      mem = put_block v (record { size = 0; next = 0; free = true; magic = 0 }) h.mem;
    }

-- The loop of the constructor over the pages from an address on; `none` is a panic or the end of the
-- address space. The parameter says whether a page was given, and the heap behind it.
pub find_page :
    (ℕ → KernelHeap → KernelHeap × Bool)
    → (fuel s v_addr : ℕ) → KernelHeap
    → Option (KernelHeap × ℕ)
find_page allocate zero s v h = none
find_page allocate (suc n) s v h =
    let (h', given) = allocate v h in
    let rest = find_page allocate n s (add32 v heap_page) h' in
    if given then some (h', v) else if ltb (add32 v heap_page) s then none else rest

pub kernel_heap : (ℕ → KernelHeap → KernelHeap × Bool) → (s : ℕ) → KernelMemory → Option KernelHeap
kernel_heap allocate s m =
    let empty : KernelHeap = record {
      start = 0;
      last = 0;
      next_page_addr = 0;
      data_size = align_up sizeof_kernel_block;
      mem = m;
    } in
    elim (find_page allocate (2 ^ 20) s (s / 2 ^ 12 * 2 ^ 12) empty) [
      | none ↦ none
      | some (h, v) ↦ some (initialise v h)
    ]

-- `while (align >>= 1) ++power;`: a word is 0 after 32 rounds.
unfoldable pub power_loop : (rounds align : ℕ) → ℕ
power_loop zero align = 0
power_loop (suc n) align =
    let rest = power_loop n (align / 2) in if align / 2 == 0 then 0 else suc rest

unfoldable pub align_power : ℕ → ℕ
align_power align = let power = power_loop 32 align in if ltb power 4 then 4 else power

-- `(((s - 1) >> power) + 1) << power`
unfoldable pub round_up : (power s : ℕ) → ℕ
round_up power s = (sub32 s 1 / 2 ^ power + 1) * 2 ^ power % 2 ^ 32

-- The search with no alignment
pub plain_scan : (fuel : ℕ) → KernelMemory → (size current : ℕ) → Option ℕ
plain_scan zero m size cur = none
plain_scan (suc n) m size cur =
    let b = m cur in
    let rest = plain_scan n m size b.next in
    if not (b.next == 0) && (ltb b.size size || not b.free) then rest else some cur

-- The start of a block that is found, up to an aligned address, becomes a block of its own.
unfoldable pub split_start : (cur s as' e : ℕ) → KernelHeap → KernelHeap × ℕ
split_start cur s as' e h =
    let new = sub32 as' h.data_size in
    let m1 =
      put_block cur
        (record (h.mem cur) { size = sub32 (sub32 as' s) h.data_size; free = true; magic = 0 })
        h.mem in
    let m2 = put_block new (record (m1 new) { next = (m1 cur).next }) m1 in
    let m3 = put_block cur (record (m2 cur) { next = new }) m2 in
    let m4 = put_block new (record (m3 new) { size = sub32 e as'; magic = 0 }) m3 in
    (record h { mem = m4 }, new)

-- The block that is found moves up, and the one before it grows.
unfoldable pub move_up : (prev cur s as' : ℕ) → KernelHeap → KernelHeap × ℕ
move_up prev cur s as' h =
    let temp = h.mem cur in
    let new = sub32 as' h.data_size in
    let gap = sub32 as' s in
    let m1 =
      put_block new (record (h.mem new) { next = temp.next; size = sub32 temp.size gap }) h.mem in
    if prev == 0 then (record h { start = new; mem = m1 }, new) else (
      record h {
        mem = put_block prev (record (m1 prev) { next = new; size = add32 (m1 prev).size gap }) m1;
      },
      new,
    )

unfoldable pub place_space : (prev cur s as' e : ℕ) → KernelHeap → KernelHeap × ℕ
place_space prev cur s as' e h =
    if as' == s
    then (h, cur)
    else if leb (h.data_size + heap_align) (sub32 as' s)
    then split_start cur s as' e h
    else move_up prev cur s as' h

-- The search for aligned space, on fuel
pub aligned_scan : (fuel power size : ℕ) → KernelHeap → (prev current : ℕ) → Option (KernelHeap × ℕ)
aligned_scan zero power size h prev cur = none
aligned_scan (suc n) power size h prev cur =
    let b = h.mem cur in
    let s = add32 cur h.data_size in
    let as' = round_up power s in
    let e = add32 s b.size in
    let rest = aligned_scan n power size h cur b.next in
    if b.next == 0
    then some (h, cur)
    else if not b.free || ltb b.size size
    then rest
    else if leb size (sub32 e as')
    then some (place_space prev cur s as' e h)
    else rest

-- The end of `find_free_block`: the rest of the block becomes a block, and the block is taken.
unfoldable pub split_end : (size : ℕ) → KernelHeap × ℕ → KernelHeap × ℕ
split_end size (h, cur) =
    let b = h.mem cur in
    if not (b.next == 0) && leb (add32 (add32 size h.data_size) heap_align) b.size
    then (let nb = add32 (add32 cur size) h.data_size in
        let rest : KernelBlock = record {
          size = sub32 (sub32 b.size size) h.data_size;
          next = b.next;
          free = true;
          magic = 0;
        } in
        let m = put_block nb rest h.mem in
        (record h { mem = put_block cur (record (m cur) { size = size; next = nb }) m }, cur))
    else (h, cur)

unfoldable pub take_found : KernelHeap × ℕ → KernelHeap × ℕ
take_found (h, cur) =
    if (h.mem cur).next == 0
    then (h, cur)
    else (record h { mem = put_block cur (record (h.mem cur) { free = false }) h.mem }, cur)

-- The rounds that a search takes at most; each block takes 16 bytes.
unfoldable pub block_rounds : KernelHeap → ℕ
block_rounds h = (h.last - h.start) / heap_align + 1

unfoldable pub search_blocks : (size align : ℕ) → KernelHeap → Option (KernelHeap × ℕ)
search_blocks size align h =
    if align == 0
    then (elim (plain_scan (block_rounds h) h.mem size h.start) [
      | none ↦ none
      | some cur ↦ some (h, cur)
    ])
    else aligned_scan (block_rounds h) (align_power align) size h 0 h.start

unfoldable pub find_kernel_block : (size align : ℕ) → KernelHeap → Option (KernelHeap × ℕ)
find_kernel_block size align h = elim (search_blocks size align h) [
  | none ↦ none
  | some r ↦ some (take_found (split_end size r))
]
