-- ===== src/ProcMemory.antt =====
-- `brk` and `set_user_stack` of kernel/cpp/Process.cpp: the data segment and the stack of a process. The
-- page tables are the set of the mapped pages, by their numbers; `allocate` of
-- kernel/cpp/PageDescriptorTable.cpp refuses a page that is mapped and one for which it finds no
-- memory, and which these are is a parameter. The other parameters are the end of the kernel's part
-- of the addresses, from kernel/include/paging.h, and the end of the program's image. Addresses and
-- sizes are 32-bit words. The copy of the tables for the running kernel is not modelled.
pub mod Stack
pub mod Shrunk
use stable_genius.Common.{
  ℕ, zero, suc, ◌+◌, ◌-◌, ◌*◌, ◌/◌, ◌%◌, ◌^◌, Bool, true, false, not, ◌||◌, Option, none, some, ltb,
  leb, ◌==◌, if◌then◌else◌,
}
use stable_genius.Common.Int.{ℤ, pos, negsuc, minus_one}
use stable_genius.UserHeap.{add32, sub32}

abbrev pub Mapped : Type 0
Mapped = ℕ → Bool

abbrev pub page : ℕ
page = 0x1000

pub record ProcMemory : Type 0 where
  pub break_point : ℕ
  pub current_stack : ℕ
  pub max_stack : ℕ
  pub mapped : Mapped

unfoldable pub map_page : ℕ → Bool → Mapped → Mapped
map_page q b m x = if x == q then b else m x

-- `pdt->allocate(addr, conf)`; `frame` says for which pages there is memory.
unfoldable pub allocate_page : (frame : ℕ → Bool) → (addr : ℕ) → Mapped → Option Mapped
allocate_page frame addr m =
    if m (addr / page) || not (frame (addr / page))
    then none
    else some (map_page (addr / page) true m)

-- `pdt->free(addr)`
unfoldable pub free_page : (addr : ℕ) → Mapped → Mapped
free_page addr m = map_page (addr / page) false m

-- The loop of `brk` that takes pages, on fuel: the pages behind it, and whether each was given.
unfoldable pub grow_loop :
    (frame : ℕ → Bool) → (fuel v_addr break_bot : ℕ) → Mapped → Option (Mapped × Bool)
grow_loop frame zero v bot m = none
grow_loop frame (suc n) v bot m =
    let next : Option (Mapped × Bool) = elim (allocate_page frame (add32 bot page) m) [
      | none ↦ some (m, false)
      | some m' ↦ grow_loop frame n v (add32 bot page) m'
    ] in
    if ltb (add32 bot page) v then next else some (m, true)

-- The loop that gives pages back, on fuel
unfoldable pub shrink_loop : (fuel addr_top v_bp : ℕ) → Mapped → Option Mapped
shrink_loop zero top bp m = none
shrink_loop (suc n) top bp m =
    let next = shrink_loop n top (sub32 bp page) (free_page bp m) in
    if leb top bp then next else some m

-- `v - v % page_size + page_size`
abbrev pub page_above : ℕ → ℕ
page_above v = add32 (v - v % page) page

-- A word as an `int`
abbrev pub as_int : ℕ → ℤ
as_int n = if ltb n (2 ^ 31) then pos n else negsuc (2 ^ 32 - 1 - n)

-- The end of `brk`, behind the loop that takes pages
unfoldable pub finish_brk : (v_addr : ℕ) → ProcMemory → Mapped × Bool → Option (ProcMemory × ℤ)
finish_brk v p (m, false) = some (record p { mapped = m }, minus_one)
finish_brk v p (m, true) = elim (shrink_loop (2 ^ 20 + 1) (page_above v) p.break_point m) [
  | none ↦ none
  | some m' ↦ some (record p { mapped = m'; break_point = v }, pos 0)
]

-- `brk(addr)`; the address space has 2 ^ 20 pages, which bounds the rounds of both loops.
unfoldable pub brk :
    (frame : ℕ → Bool) → (base elf_break v_addr : ℕ) → ProcMemory → Option (ProcMemory × ℤ)
brk frame base elf_break v p =
    let bp = p.break_point in
    let bot = if bp % page == 0 then sub32 bp page else bp - bp % page in
    if v == 0
    then some (p, as_int bp)
    else if ltb v elf_break || leb (sub32 base p.current_stack) (page_above v)
    then some (p, minus_one)
    else elim (grow_loop frame (2 ^ 20 + 1) v bot p.mapped) [
      | none ↦ none
      | some r ↦ finish_brk v p r
    ]

-- The loop of `set_user_stack`, on fuel: the pages, the size of the stack, and whether each was given.
unfoldable pub stack_loop :
    (frame : ℕ → Bool) → (base fuel sz current_stack : ℕ) → Mapped → Option (Mapped × ℕ × Bool)
stack_loop frame base zero sz cur m = none
stack_loop frame base (suc n) sz cur m =
    let next : Option (Mapped × ℕ × Bool) =
      elim (allocate_page frame (sub32 (sub32 base cur) page) m) [
        | none ↦ some (m, cur, false)
        | some m' ↦ stack_loop frame base n sz (add32 cur page) m'
      ] in
    if ltb cur sz then next else some (m, cur, true)

-- `set_user_stack(sz)`
unfoldable pub set_user_stack :
    (frame : ℕ → Bool) → (base sz : ℕ) → ProcMemory → Option (ProcMemory × ℤ)
set_user_stack frame base sz p =
    if ltb sz p.current_stack
    then some (p, pos 0)
    else if ltb p.max_stack (page_above sz) || ltb (sub32 base (page_above sz)) p.break_point
    then some (p, minus_one)
    else elim (stack_loop frame base (2 ^ 20 + 1) (page_above sz) p.current_stack p.mapped) [
      | none ↦ none
      | some (m, cur, given) ↦
          some (record p { mapped = m; current_stack = cur }, if given then pos 0 else minus_one)
    ]
