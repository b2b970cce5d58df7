-- ===== src/ProcMemory/Shrunk.antt =====
-- `brk` down to the start of a page, and up again.
use stable_genius.Common.{
  ℕ, zero, suc, ◌+◌, ◌-◌, ◌*◌, ◌/◌, ◌%◌, ◌^◌, ◌≤◌, ◌<◌, ◌≡◌, ◌≢◌, refl, Bool, true, false, some,
  inl, inr, ltb, leb, ◌==◌, ◌||◌, arith, ◌∙◌, Bool-cases, if◌then◌else◌,
}
use stable_genius.Common.Int.{pos, minus_one}
use stable_genius.UserHeap.{add32, sub32}
use stable_genius.ProcMemory.{
  Mapped, page, ProcMemory, map_page, allocate_page, free_page, page_above, grow_loop, shrink_loop,
  finish_brk, brk,
}

-- The loop that gives pages back ends, and keeps the pages below.
shrink_loop-keeps :
    (n top bp q : ℕ) (m : Mapped)
    → page ≤ top
    → bp < 2 ^ 32
    → bp < top + n * page
    → (q + 1) * page ≤ top
    → m q ≡ true
    → (m' : Mapped) × (shrink_loop (suc n) top bp m ≡ some m') × (m' q ≡ true)
unfolding shrink_loop free_page map_page
shrink_loop-keeps zero top bp q m low word enough below kept =
    let done : leb top bp ≡ false = ground (arith, enough) in (m, rw done refl, kept)
shrink_loop-keeps (suc n) top bp q m low word enough below kept = elim (Bool-cases (leb top bp)) [
  | inr done ↦ (m, rw done refl, kept)
  | inl more ↦
      let above : top ≤ bp = ground (arith, more) in
      let down : sub32 bp page < top + n * page = omega arith in
      let word' : sub32 bp page < 2 ^ 32 = omega arith in
      let other : (q == bp / page) ≡ false =
        let ne : q < bp / page = omega arith in ground (arith, ne) in
      let (m', e, kept') =
        shrink_loop-keeps n top (sub32 bp page) q (free_page bp m) low word' down below
          (rw other kept) in
      (m', rw more e, kept')
]

-- A break that moves down takes no page.
grow_loop-down :
    (frame : ℕ → Bool) (n v bot : ℕ) (m : Mapped)
    → v ≤ bot + page
    → bot + page < 2 ^ 32
    → grow_loop frame (suc n) v bot m ≡ some (m, true)
unfolding grow_loop
grow_loop-down frame n v bot m le word =
    let sum : add32 bot page ≡ bot + page = omega arith in
    let done : ltb (bot + page) v ≡ false = ground (arith, le) in rw (sum, done) refl

-- A page that is mapped already stops one that moves up.
grow_loop-stuck :
    (frame : ℕ → Bool) (n v bot : ℕ) (m : Mapped)
    → bot + page < v
    → bot + page < 2 ^ 32
    → m ((bot + page) / page) ≡ true
    → grow_loop frame (suc n) v bot m ≡ some (m, false)
unfolding grow_loop allocate_page
grow_loop-stuck frame n v bot m lt word there =
    let sum : add32 bot page ≡ bot + page = omega arith in rw sum (ground (arith, lt, there))

-- Where an address may be the break: in the image's data or above, and below the stack.
pub record IsBreak (base elf_break v : ℕ) (p : ProcMemory) : Type 0 where
  pub some' : v ≢ 0
  pub image : elf_break ≤ v
  pub stack : page_above v < sub32 base p.current_stack

module _ (frame : ℕ → Bool) (base elf_break : ℕ) where
  brk-steps :
      (v bot : ℕ) (p : ProcMemory) (r : Mapped × Bool)
      → IsBreak base elf_break v p
      → (if p.break_point % page == 0
          then sub32 p.break_point page
          else p.break_point - p.break_point % page)
        ≡ bot
      → grow_loop frame (2 ^ 20 + 1) v bot p.mapped ≡ some r
      → brk frame base elf_break v p ≡ finish_brk v p r
  unfolding brk
  brk-steps v bot p r i b e =
      let tests : (ltb v elf_break || leb (sub32 base p.current_stack) (page_above v)) ≡ false =
        let one : ltb v elf_break ≡ false = ground (arith, i.image) in
        let two : leb (sub32 base p.current_stack) (page_above v) ≡ false =
          ground (arith, i.stack) in
        rw (one, two) refl in
      rw b (ground (arith, i.some', tests, e))

-- A break at the start of a page can be stuck there: `brk` down to the start of a page that is mapped
-- ends with 0 and leaves that page mapped, and so each later `brk` to an address above ends with -1
-- and moves nothing, however much memory there is. It asks for a break above that address and a
-- page away from the end of the addresses at least, and that both addresses lie between the
-- image's end and the stack.
pub brk-stuck :
    (frame : ℕ → Bool) (base elf_break a v : ℕ) (p : ProcMemory)
    → a % page ≡ 0
    → a < p.break_point
    → p.break_point + page < 2 ^ 32
    → p.mapped (a / page) ≡ true
    → IsBreak base elf_break a p
    → a < v
    → IsBreak base elf_break v p
    → (p' : ProcMemory) × (brk frame base elf_break a p ≡ some (p', pos 0))
      × (p'.break_point ≡ a)
      × (brk frame base elf_break v p' ≡ some (p', minus_one))
unfolding finish_brk
brk-stuck frame base elf_break a v p even down word there i up j =
    let bp = p.break_point in
    let first = i.some' in
    let bot = if bp % page == 0 then sub32 bp page else bp - bp % page in
    let above : (a ≤ bot + page) × (bot + page < 2 ^ 32) = elim (Bool-cases (bp % page == 0)) [
      | inl whole ↦
          let e : sub32 bp page ≡ bp - page = omega arith in
          rw (whole, e) (omega arith, omega arith)
      | inr part ↦ rw part (omega arith, omega arith)
    ] in
    let top : page_above a ≡ a + page = omega arith in
    let grow = grow_loop-down frame (2 ^ 20) a bot p.mapped above.0 above.1 in
    let (m', shrunk, kept) =
      shrink_loop-keeps (2 ^ 20) (a + page) bp (a / page) p.mapped (omega arith) (omega arith)
        (omega arith) (omega arith) there in
    let p' : ProcMemory = record p { mapped = m'; break_point = a } in
    let bot' : (if a % page == 0 then sub32 a page else a - a % page) ≡ a - page =
      let e : sub32 a page ≡ a - page = omega arith in rw even e in
    let back : a - page + page ≡ a = omega arith in
    let stuck =
      grow_loop-stuck frame (2 ^ 20) v (a - page) m' (omega arith) (omega arith) (rw back kept) in
    (
      p',
      brk-steps frame base elf_break a bot p (p.mapped, true) i refl grow
          ∙ rw top (ground (arith, shrunk)),
      refl,
      brk-steps frame base elf_break v (a - page) p' (m', false)
          (record { some' = j.some'; image = j.image; stack = j.stack }) bot' stuck,
    )
