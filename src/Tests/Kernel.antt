-- ===== src/Tests/Kernel.antt =====
-- The kernel's heap, the memory of a process and the files in memory at concrete states.
use stable_genius.Common.{
  ℕ, ◌+◌, ◌/◌, ◌^◌, ◌≤◌, ◌<◌, ◌≡◌, refl, true, false, none, some, [], ◌∷◌, arith, if◌then◌else◌,
  ◌==◌, ◌||◌, ltb,
}
use stable_genius.Common.Int.{ℤ, pos, minus_one}
use stable_genius.UserHeap.{add32, align_up}
use stable_genius.KernelHeap.{
  KernelMemory, KernelHeap, align_power, power_loop, round_up, find_kernel_block,
}
use stable_genius.KernelHeap.Malloc.{Pages, kernel_malloc}
use stable_genius.KernelHeap.Words.{Multiple}
use stable_genius.KernelHeap.Grow.{GrantsUpTo}
use stable_genius.KernelHeap.Overrun
use stable_genius.KernelHeap.Overrun.{EndsEarly}
use stable_genius.KernelHeap.Chain.{IsLinked}
use stable_genius.KernelHeap.Aligned
use stable_genius.ProcMemory.{Mapped, page, ProcMemory, set_user_stack, brk}
use stable_genius.ProcMemory.Stack
use stable_genius.ProcMemory.Stack.{StackMapped}
use stable_genius.ProcMemory.Shrunk
use stable_genius.ProcMemory.Shrunk.{IsBreak}
use stable_genius.MemoryFiles.{Name, MemoryInode, MemoryFileSystem, find, same_name, rename}
use stable_genius.MemoryFiles.Removal

-- A free block of 32 bytes at 4096, a block of 48 in use behind it, and the last block
abbrev kernel_blocks : KernelMemory
kernel_blocks a =
    if a == 4096
    then record { size = 32; next = 4144; free = true; magic = 0 }
    else if a == 4144
    then record { size = 48; next = 4208; free = false; magic = 7 }
    else record { size = 0; next = 0; free = true; magic = 0 }

abbrev kernel_state : KernelHeap
kernel_state = record {
  start = 4096;
  last = 4208;
  next_page_addr = 8192;
  data_size = 16;
  mem = kernel_blocks;
}

power_4 : align_power (2 ^ 4) ≡ 4
unfolding align_power power_loop
power_4 = refl

rounded : round_up 4 4112 ≡ 4112
unfolding round_up
rounded = refl

kernel_state-IsLinked : IsLinked (align_power (2 ^ 4)) kernel_state
kernel_state-IsLinked = rw power_4 (record {
  header = refl;
  blocks = 2;
  chain = (refl, λ _. rw rounded (omega arith), (refl, λ e. cc, (refl, refl)));
  room = omega arith;
})

-- There is memory for the pages below 64KB.
abbrev granting : Pages
granting h = if ltb h.next_page_addr 0x1_0000 then some (h, false) else none

granting-up_to : GrantsUpTo granting kernel_state (4208 + 16 + (align_up 5000 + 2 ^ 4))
granting-up_to x from to = ground arith

kernel_malloc-aligned_example :
    (g : KernelHeap) × (addr : ℕ) × (kernel_malloc granting 5000 (2 ^ 4) 5 kernel_state
      ≡ some (g, addr))
    × Multiple (2 ^ 4) addr
kernel_malloc-aligned_example =
    Aligned.kernel_malloc-aligned granting 5000 4 5 kernel_state granting-up_to (omega arith)
      (omega arith) kernel_state-IsLinked (omega arith)

page_power : align_power 4096 ≡ 12
unfolding align_power power_loop
page_power = refl

page_up : round_up 12 4112 ≡ 8192
unfolding round_up
page_up = refl

kernel_state-EndsEarly : EndsEarly kernel_state 32 4096
kernel_state-EndsEarly = record {
  header = omega arith;
  linked = omega arith;
  free = refl;
  large = omega arith;
  fits = omega arith;
  early = rw (page_power, page_up) (omega arith);
}

find_kernel_block-overruns_example :
    (h' : KernelHeap) × (c : ℕ) × (find_kernel_block 32 4096 kernel_state ≡ some (h', c))
    × (4096 + 16 + 32 < add32 c h'.data_size)
find_kernel_block-overruns_example =
    Overrun.find_kernel_block-overruns kernel_state 32 4096 (omega arith) kernel_state-EndsEarly

-- A process with one page of stack below 3 GB and a break at 0x5800
abbrev some_pages : Mapped
some_pages q = q == 3 || q == 0xBFFFF

abbrev small_process : ProcMemory
small_process = record {
  break_point = 0x5800;
  current_stack = 0x1000;
  max_stack = 0x800000;
  mapped = some_pages;
}

one_page : StackMapped 0xC0000000 0x1000 some_pages
one_page a low high = let e : a / page ≡ 0xBFFFF = omega arith in rw e refl

set_user_stack-StackMapped_example :
    (p' : ProcMemory) × (z : ℤ) × (set_user_stack (λ q. true) 0xC0000000 0x2345 small_process
      ≡ some (p', z))
    × StackMapped 0xC0000000 p'.current_stack p'.mapped
    × (0x1000 ≤ p'.current_stack)
    × (p'.current_stack ≤ 0xC0000000)
    × (p'.break_point ≡ 0x5800)
    × (z ≡ pos 0 → 0x2345 ≤ p'.current_stack)
set_user_stack-StackMapped_example =
    Stack.set_user_stack-StackMapped (λ q. true) 0xC0000000 0x2345 small_process refl (omega arith)
      (omega arith) refl (omega arith) (omega arith) one_page

brk-stuck_example :
    (p' : ProcMemory) × (brk (λ q. true) 0xC0000000 0x1000 0x3000 small_process ≡ some (p', pos 0))
    × (p'.break_point ≡ 0x3000)
    × (brk (λ q. true) 0xC0000000 0x1000 0x3800 p' ≡ some (p', minus_one))
brk-stuck_example =
    Shrunk.brk-stuck (λ q. true) 0xC0000000 0x1000 0x3000 0x3800 small_process refl (omega arith)
      (omega arith) refl (record { some' = omega arith; image = omega arith; stack = omega arith })
      (omega arith) (record { some' = omega arith; image = omega arith; stack = omega arith })

-- One file "a" with one link
abbrev name_a : Name
name_a = b'a' ∷ []

abbrev name_b : Name
name_b = b'b' ∷ []

abbrev inode_a : MemoryInode
inode_a = record { addr = 100; sz = 10; no_links = 1 }

abbrev one_file : MemoryFileSystem
one_file = record {
  files = (name_a, 7) ∷ [];
  inodes = λ i. if i == 7 then some inode_a else none;
  fresh = 200;
}

no_b : find name_b one_file.files ≡ none
unfolding find same_name
no_b = refl

has_a : find name_a one_file.files ≡ some 7
unfolding find same_name
has_a = refl

rename-dangles_example :
    (fs' : MemoryFileSystem) × (rename (λ n. 0) name_a name_b one_file ≡ some fs')
    × (find name_b fs'.files ≡ some 7)
    × (fs'.inodes 7 ≡ none)
rename-dangles_example =
    Removal.rename-dangles (λ n. 0) name_a name_b 7 inode_a one_file has_a refl (omega arith) refl
      no_b
