-- ===== src/UserHeap.antt =====
-- stdlib/cpp/UserHeap.cpp and stdlib/include/UserHeap.h: the heap of a user process, a list of
-- blocks linked through the memory that they stand in. The memory is the function from the address
-- of a block header to the header; an address or a size is a 32-bit word, and additions wrap. The
-- system call `brk` is a parameter: whether it grants the requested end of the data segment.
pub mod Layout
pub mod Scan
pub mod Claim
pub mod Malloc
pub mod Free
pub mod Blocks
use stable_genius.Common.{
  ℕ, zero, suc, ◌+◌, ◌-◌, ◌*◌, ◌/◌, ◌%◌, ◌^◌, Bool, true, false, not, ◌&&◌, ◌||◌, Option, none,
  some, ltb, leb, ◌==◌, if◌then◌else◌,
}

-- 32-bit addition and subtraction
abbrev pub add32 : ℕ → ℕ → ℕ
add32 a b = (a + b) % 2 ^ 32

abbrev pub sub32 : ℕ → ℕ → ℕ
sub32 a b = (a + 2 ^ 32 - b) % 2 ^ 32

pub record BlockData : Type 0 where
  pub size : ℕ
  pub next : ℕ
  pub free : Bool

abbrev pub Memory : Type 0
Memory = ℕ → BlockData

unfoldable pub write : Memory → ℕ → BlockData → Memory
write m a b x = if x == a then b else m x

pub record UserHeap : Type 0 where
  pub start : ℕ
  pub last : ℕ
  pub data_size : ℕ
  pub mem : Memory

abbrev pub heap_align : ℕ
heap_align = 16

-- `sizeof(BlockData)`: two words, and a `bool` padded to a word
abbrev pub sizeof_block_data : ℕ
sizeof_block_data = 12

-- `(((size - 1) >> heap_align_power) + 1) << heap_align_power`
abbrev pub align_up : ℕ → ℕ
align_up size = ((size - 1) / 2 ^ 4 + 1) * 2 ^ 4 % 2 ^ 32

-- The constructor, on the memory that it finds.
pub user_heap : (ℕ → Bool) → (s : ℕ) → Memory → UserHeap
user_heap brk s m =
    let data_size = align_up sizeof_block_data in
    if brk (add32 s data_size)
    then record {
      start = s;
      last = s;
      data_size = data_size;
      mem = write m s (record { size = 0; next = 0; free = true });
    }
    else record { start = 0; last = s; data_size = data_size; mem = m }

-- The loop of `find_free_block`, on fuel.
pub scan : (fuel : ℕ) → Memory → (size current : ℕ) → Option ℕ
scan zero m size cur = none
scan (suc n) m size cur =
    let b = m cur in
    let rest = scan n m size b.next in
    if not (b.next == 0) && (ltb b.size size || not b.free) then rest else some cur

-- What `find_free_block` does to the block at which the loop ends.
pub split_block : ℕ → UserHeap → ℕ → UserHeap
split_block size h cur =
    let b = h.mem cur in
    if not (b.next == 0) && leb (add32 (add32 size h.data_size) heap_align) b.size
    then (let nb = add32 (add32 cur size) h.data_size in
        let rest : BlockData = record {
          size = sub32 (sub32 b.size size) h.data_size;
          next = b.next;
          free = true;
        } in
        let m = write h.mem nb rest in
        record h { mem = write m cur (record (m cur) { size = size; next = nb }) })
    else h

pub claim_block : UserHeap → ℕ → UserHeap
claim_block h cur =
    if (h.mem cur).next == 0
    then h
    else record h { mem = write h.mem cur (record (h.mem cur) { free = false }) }

-- `find_free_block(size)`; each block takes 16 bytes at least, which bounds the number of rounds.
pub find_free_block : ℕ → UserHeap → Option (UserHeap × ℕ)
find_free_block size h = elim (scan ((h.last - h.start) / heap_align + 1) h.mem size h.start) [
  | none ↦ none
  | some cur ↦ some (claim_block (split_block size h cur) cur, cur)
]

-- `new_block(size)`; the result 0 is `nullptr`.
pub new_block : (ℕ → Bool) → ℕ → UserHeap → UserHeap × ℕ
new_block brk size h =
    if brk (add32 (add32 h.last (2 * h.data_size)) size)
    then (let end = add32 (add32 h.last size) h.data_size in
        let m1 = write h.mem h.last (record (h.mem h.last) { size = size; free = false }) in
        let m2 = write m1 end (record { size = 0; next = 0; free = true }) in
        (
          record h { last = end; mem = write m2 h.last (record (m2 h.last) { next = end }) },
          h.last,
        ))
    else (h, 0)

-- The end of `malloc`: a new block if none was found, and the address behind the header.
pub finish_malloc : (ℕ → Bool) → ℕ → UserHeap × ℕ → UserHeap × ℕ
finish_malloc brk size (h, result) =
    if result == h.last
    then (let (g, fresh) = new_block brk size h in (g, add32 fresh g.data_size))
    else (h, add32 result h.data_size)

-- `malloc(size)`; `none` stands for a loop that does not end.
pub malloc : (ℕ → Bool) → ℕ → UserHeap → Option (UserHeap × ℕ)
malloc brk size h =
    if h.start == 0 || size == 0 then some (h, 0) else elim (find_free_block (align_up size) h) [
      | none ↦ none
      | some r ↦ some (finish_malloc brk (align_up size) r)
    ]

-- The loop of `free`, on fuel: merge with the blocks behind.
pub merge : (fuel : ℕ) → Memory → (data_size current : ℕ) → Option Memory
merge zero m ds cur = none
merge (suc n) m ds cur =
    let b = m cur in
    let c = m b.next in
    let rest =
      merge n (write m cur (record b { size = add32 b.size (add32 ds c.size); next = c.next })) ds
        cur in
    if c.free && not (c.next == 0) then rest else some m

-- `free(addr)`
pub free_block : ℕ → UserHeap → Option UserHeap
free_block addr h =
    if addr == 0 || h.start == 0
    then some h
    else (let cur = sub32 addr h.data_size in
        let m = write h.mem cur (record (h.mem cur) { free = true }) in
        elim (merge ((h.last - h.start) / heap_align + 1) m h.data_size cur) [
          | none ↦ none
          | some m' ↦ some (record h { mem = m' })
        ])
