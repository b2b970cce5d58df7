-- ===== src/KernelHeap/Aligned.antt =====
-- An aligned `malloc` of the kernel's heap: it ends, and the address is aligned.
use stable_genius.Common.{ℕ, ◌+◌, ◌^◌, ◌≤◌, ◌<◌, ◌≡◌, ◌≢◌, some, inl, inr, arith, ◌∙◌, ap}
use stable_genius.UserHeap.{add32, align_up}
use stable_genius.KernelHeap.{
  KernelHeap, heap_page, align_power, block_rounds, take_found, split_end, find_kernel_block,
}
use stable_genius.KernelHeap.Malloc.{
  Pages, new_kernel_block, mark_magic, or_new_block, kernel_malloc,
}
use stable_genius.KernelHeap.Grow.{GrantsUpTo, new_kernel_block-aligned}
use stable_genius.KernelHeap.Words.{Multiple, power-pos, align_power-power, Multiple-lower}
use stable_genius.KernelHeap.Overrun.{found-same, find-aligned}
use stable_genius.KernelHeap.Chain.{
  IsLinked, blocks-lt-rounds, aligned_scan-Found, found-last, Chain-last,
}

power_range : (k : ℕ) → k < 32 → (k ≤ align_power (2 ^ k)) × (align_power (2 ^ k) ≤ 32)
power_range k h = let e = align_power-power k h in (ground (arith, e, h), ground (arith, e, h))

mark_magic-address :
    (magic : ℕ) (r : KernelHeap × ℕ) → (mark_magic magic r).1 ≡ add32 r.1 r.0.data_size
unfolding mark_magic
mark_magic-address magic (h, c) = ground arith

malloc_steps :
    (allocate : Pages) (size align magic : ℕ) (h : KernelHeap) (r r' : KernelHeap × ℕ)
    → size ≢ 0
    → find_kernel_block (align_up size) align h ≡ some r
    → or_new_block allocate (align_up size) align r ≡ some r'
    → kernel_malloc allocate size align magic h ≡ some (mark_magic magic r')
unfolding kernel_malloc
malloc_steps allocate size align magic h r r' some' e e' = ground (arith, some', e, e')

or_new_block-last :
    (allocate : Pages) (n align : ℕ) (h : KernelHeap)
    → or_new_block allocate n align (h, h.last) ≡ new_kernel_block allocate n align h
unfolding or_new_block
or_new_block-last allocate n align h = ground arith

or_new_block-found :
    (allocate : Pages) (n align : ℕ) (r : KernelHeap × ℕ)
    → r.1 ≢ r.0.last
    → or_new_block allocate n align r ≡ some r
unfolding or_new_block
or_new_block-found allocate n align (h, c) other = ground (arith, other)

-- The block behind the search, new or found, with its data aligned
block-aligned :
    (allocate : Pages) (n align : ℕ) (h : KernelHeap)
    → GrantsUpTo allocate h (h.last + 16 + (n + align))
    → align ≢ 0
    → align_power align ≤ 32
    → IsLinked (align_power align) h
    → h.last + 16 + n + align + heap_page < 2 ^ 32
    → (r : KernelHeap × ℕ) × (r' : KernelHeap × ℕ) × (find_kernel_block n align h ≡ some r)
      × (or_new_block allocate n align r ≡ some r')
      × (r'.0.data_size ≡ 16)
      × Multiple (2 ^ align_power align) (add32 r'.1 16)
block-aligned allocate n align h grants some' low l room =
    let (r, scan, found) =
      aligned_scan-Found (align_power align) n h low l.header l.room l.blocks (block_rounds h) 0
        h.start l.chain (blocks-lt-rounds (align_power align) h l) in
    let find = find-aligned n align h r some' scan in
    elim found [
      | inl e ↦
          let last = Chain-last h.mem (align_power align) h.last l.blocks h.start l.chain in
          let same : take_found (split_end n r) ≡ (h, h.last) = rw e (found-last n h.last h last) in
          let (g, c, made, ds, aligned) =
            new_kernel_block-aligned allocate n align h grants some' low l room in
          (
            (h, h.last),
            (g, c),
            find ∙ ap some same,
            or_new_block-last allocate n align h ∙ made,
            ds,
            aligned,
          )
      | inr (aligned, before, ds, last) ↦
          let t = take_found (split_end n r) in
          let (at, ds', last') = found-same n r.1 r.0 in
          let other : t.1 ≢ t.0.last = λ e. absurd (omega (arith, e, at, last', last, before)) in
          (t, t, find, or_new_block-found allocate n align t other, ds' ∙ ds, rw at aligned)
    ]

-- An aligned `malloc` ends and returns an address that is a multiple of the alignment, whether it finds
-- a free block, splits or moves one, or makes a new one at the end of the heap. It asks for a size
-- that is not 0; for an alignment that is a power of two; for a heap whose blocks are chained up to
-- its last one, where the space of each free block reaches the first aligned address in it; for room
-- below 2 ^ 32 behind the last block; and that each page, if any, which the heap has not got and a new block
-- would reach can be mapped without a new page table. What happens when there is no memory for
-- such a page, which is a panic, or when `malloc` is entered again for a page table, is left open.
pub kernel_malloc-aligned :
    (allocate : Pages) (size k magic : ℕ) (h : KernelHeap)
    → GrantsUpTo allocate h (h.last + 16 + (align_up size + 2 ^ k))
    → size ≢ 0
    → k < 32
    → IsLinked (align_power (2 ^ k)) h
    → h.last + 16 + align_up size + 2 ^ k + heap_page < 2 ^ 32
    → (g : KernelHeap) × (addr : ℕ) × (kernel_malloc allocate size (2 ^ k) magic h ≡ some (g, addr))
      × Multiple (2 ^ k) addr
kernel_malloc-aligned allocate size k magic h grants some' small l room =
    let some'' = power-pos k in
    let (low, high) = power_range k small in
    let (r, r', find, new, ds, aligned) =
      block-aligned allocate (align_up size) (2 ^ k) h grants (omega (arith, some'')) high l room in
    let at : (mark_magic magic r').1 ≡ add32 r'.1 16 =
      mark_magic-address magic r' ∙ ap (add32 r'.1) ds in
    (
      (mark_magic magic r').0,
      (mark_magic magic r').1,
      malloc_steps allocate size (2 ^ k) magic h r r' some' find new,
      rw at (Multiple-lower k (align_power (2 ^ k)) _ low aligned),
    )
