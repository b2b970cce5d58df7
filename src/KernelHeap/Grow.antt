-- ===== src/KernelHeap/Grow.antt =====
-- `new_block` of the kernel's heap: the loop over the pages ends, the last block moves to an aligned
-- address, and the block before it is found.
use stable_genius.Common.{
  ℕ, zero, suc, ◌+◌, ◌-◌, ◌*◌, ◌^◌, ◌≤◌, ◌<◌, ◌≡◌, ◌≢◌, refl, true, false, some, inl, inr, ltb, leb,
  ◌==◌, arith, Bool-cases, ◌∙◌, ap,
}
use stable_genius.UserHeap.{add32, sub32, heap_align}
use stable_genius.KernelHeap.{
  KernelBlock, KernelHeap, put_block, heap_page, align_power, round_up, block_rounds,
}
use stable_genius.KernelHeap.Malloc.{
  Pages, next_page, take_pages, find_prev, fill_gap, move_last, align_last, give_last,
  new_kernel_block,
}
use stable_genius.KernelHeap.Words.{
  Multiple, power-pos, round_up-Multiple, round_up-le, round_up-lt, add32-sub32,
}
use stable_genius.KernelHeap.Chain.{Chain, IsLinked, blocks-lt-rounds, find_prev-ends}

abbrev beside : KernelHeap → ℕ → KernelHeap
beside h x = record h { next_page_addr = x }

-- The page tables give every page that the heap has not got yet, up to the page of an address, without a new
-- page table and so without calling `malloc` on the way. Where the heap has got them all this asks
-- for nothing.
abbrev pub GrantsUpTo : Pages → KernelHeap → (address : ℕ) → Type 0
GrantsUpTo allocate h address =
    (x : ℕ)
    → h.next_page_addr ≤ x
    → x ≤ address
    → allocate (record h { next_page_addr = x }) ≡ some (record h { next_page_addr = x }, false)

module _ (allocate : Pages) where
  next_page-grants :
      (h : KernelHeap)
      → allocate h ≡ some (h, false)
      → next_page allocate h ≡ some (beside h (add32 h.next_page_addr heap_page))
  unfolding next_page
  next_page-grants h g = ground (arith, g)

  more_pages :
      (f need : ℕ) (h : KernelHeap)
      → allocate h ≡ some (h, false)
      → ltb (add32 (add32 h.last h.data_size) need) h.next_page_addr ≡ false
      → take_pages allocate (suc f) need h
        ≡ take_pages allocate f need (beside h (add32 h.next_page_addr heap_page))
  unfolding take_pages
  more_pages f need h given more = let g = next_page-grants h given in ground (arith, g, more)

  -- The loop over the pages ends, and changes nothing but the next page's address.
  take_pages-ends :
      (f need : ℕ) (h : KernelHeap)
      → GrantsUpTo allocate h (h.last + h.data_size + need)
      → h.last + h.data_size + need + heap_page < 2 ^ 32
      → h.last + h.data_size + need < h.next_page_addr + f * heap_page
      → (x : ℕ) × (take_pages allocate (suc f) need h ≡ some (beside h x))
  unfolding take_pages
  take_pages-ends zero need h grants room enough =
      let sum : add32 (add32 h.last h.data_size) need ≡ h.last + h.data_size + need = omega arith in
      let done : ltb (h.last + h.data_size + need) h.next_page_addr ≡ true =
        ground (arith, enough) in
      (h.next_page_addr, rw (sum, done) refl)
  take_pages-ends (suc f) need h grants room enough =
      let sum : add32 (add32 h.last h.data_size) need ≡ h.last + h.data_size + need = omega arith in
      elim (Bool-cases (ltb (h.last + h.data_size + need) h.next_page_addr)) [
        | inl done ↦ (h.next_page_addr, rw (sum, done) refl)
        | inr more ↦
            let low : h.next_page_addr ≤ h.last + h.data_size + need = ground (arith, more) in
            let y = add32 h.next_page_addr heap_page in
            let next : y ≡ h.next_page_addr + heap_page = omega arith in
            let later : GrantsUpTo allocate (beside h y) (h.last + h.data_size + need) =
              λ z from to. grants z (omega (arith, next, from)) to in
            let (x, e) = take_pages-ends f need (beside h y) later room (rw next (omega arith)) in
            let here = grants h.next_page_addr (omega arith) low in
            (x, more_pages (suc f) need h here (rw sum more) ∙ e)
      ]

-- The alignment of the last block: its data starts at an aligned address, as the chain is there.
fill_gap-last :
    (new ls : ℕ) (h : KernelHeap)
    → ((fill_gap new ls h).last ≡ new) × ((fill_gap new ls h).data_size ≡ h.data_size)
unfolding fill_gap
fill_gap-last new ls h = (refl, refl)

put_block-other :
    (a x : ℕ) (h : KernelHeap) (b : KernelBlock) → x ≢ a → put_block a b h.mem x ≡ h.mem x
unfolding put_block
put_block-other a x h b other = ground (arith, other)

-- A heap of several blocks has one before the last.
prev_of :
    (power new n : ℕ) (h : KernelHeap) (b : KernelBlock)
    → Chain h.mem power h.last n h.start
    → (h.start == h.last) ≡ false
    → n < block_rounds h
    → h.last < new
    → (prev : ℕ) × (find_prev (block_rounds h) (put_block new b h.mem) h.start h.last ≡ some prev)
prev_of power new zero h b c several short above = absurd (ground (arith, c.0, several))
prev_of power new (suc n) h b c several short above =
    find_prev-ends h.mem (put_block new b h.mem) power h.last n (block_rounds h) h.start c
      (λ x le. put_block-other new x h b (λ e. absurd (omega (arith, e, le, above)))) (omega arith)

move_last-ends :
    (power new n : ℕ) (h : KernelHeap)
    → Chain h.mem power h.last n h.start
    → n < block_rounds h
    → h.last < new
    → (g : KernelHeap) × (move_last new h ≡ some g) × (g.last ≡ new) × (g.data_size ≡ h.data_size)
unfolding move_last
move_last-ends power new n h c short above =
    let top : KernelBlock = record (h.mem new) { free = true; next = 0; size = 0 } in
    let m1 = put_block new top h.mem in
    elim (Bool-cases (h.start == h.last)) [
      | inl only ↦ (record h { start = new; last = new; mem = m1 }, rw only refl, refl, refl)
      | inr several ↦
          let (prev, e) = prev_of power new n h top c several short above in
          (
            record h {
              last = new;
              mem =
                  put_block prev
                    (record (m1 prev) { next = new; size = sub32 (sub32 new prev) h.data_size }) m1;
            },
            rw (several, e) refl,
            refl,
            refl,
          )
    ]

align_last-aligned :
    (align : ℕ) (h : KernelHeap)
    → align ≢ 0
    → align_power align ≤ 32
    → IsLinked (align_power align) h
    → (g : KernelHeap) × (align_last align h ≡ some g)
      × (g.data_size ≡ 16)
      × Multiple (2 ^ align_power align) (add32 g.last 16)
unfolding align_last
align_last-aligned align h some' low l =
    let power = align_power align in
    let header = l.header in
    let room = l.room in
    let ls = h.last + 16 in
    let as' = round_up power ls in
    let aligned = round_up-Multiple power ls low in
    let (above, near) = round_up-le power ls (omega arith) room in
    let s : add32 h.last h.data_size ≡ ls =
      let some'' = power-pos power in omega (arith, header, room, some'') in
    let back = add32-sub32 as' 16 (round_up-lt power ls) (omega arith) in
    let new = sub32 as' h.data_size in
    let below = round_up-lt power ls in
    let header' : new ≡ sub32 as' 16 = ap (sub32 as') header in
    elim (Bool-cases (leb (h.data_size + heap_align) (sub32 new ls))) [
      | inl wide ↦
          let (last, ds) = fill_gap-last new ls h in
          (
            fill_gap new ls h,
            ground (arith, some', s, wide),
            ds ∙ header,
            rw (last, header', back) aligned,
          )
      | inr narrow ↦
          let small : sub32 new ls < h.data_size + 16 = ground (arith, narrow) in
          let up : h.last < new = omega (arith, small, header, header', above, room, below) in
          let (g, e, last, ds) =
            move_last-ends power new l.blocks h l.chain (blocks-lt-rounds power h l) up in
          (g, ground (arith, some', s, narrow, e), ds ∙ header, rw (last, header', back) aligned)
    ]

-- `new_block` from a chained heap with room for the space, its alignment and a page more
pub new_kernel_block-aligned :
    (allocate : Pages) (size align : ℕ) (h : KernelHeap)
    → GrantsUpTo allocate h (h.last + 16 + (size + align))
    → align ≢ 0
    → align_power align ≤ 32
    → IsLinked (align_power align) h
    → h.last + 16 + size + align + heap_page < 2 ^ 32
    → (g : KernelHeap) × (c : ℕ) × (new_kernel_block allocate size align h ≡ some (g, c))
      × (g.data_size ≡ 16)
      × Multiple (2 ^ align_power align) (add32 c 16)
unfolding new_kernel_block give_last
new_kernel_block-aligned allocate size align h grants some' low l room =
    let header = l.header in
    let need : add32 size align ≡ size + align = omega (arith, room) in
    let (x, pages) =
      take_pages-ends allocate (2 ^ 20 - 1) (size + align) h
        (λ x from to. grants x from (omega (arith, header, to))) (omega (arith, room, header))
        (omega (arith, room, header)) in
    let l' : IsLinked (align_power align) (beside h x) = record {
      header = l.header;
      blocks = l.blocks;
      chain = l.chain;
      room = l.room;
    } in
    let (g, e, ds, aligned) = align_last-aligned align (beside h x) some' low l' in
    let r = give_last size g in (r.0, r.1, rw need (ground (arith, pages, e)), ds, aligned)
