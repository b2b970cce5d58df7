-- ===== src/Paging.antt =====
-- kernel/cpp/PageDescriptorTable.cpp and kernel/include/PageDescriptorTable.h: the page tables. A table is
-- the function from its 1024 indices to the entries, which are 32-bit words with the address of a
-- page in the upper 20 bits and its settings in the lower 12; the tables stand at addresses. `|` of
-- an address and settings, whose bits the code tests to be apart, is their sum. The physical pages
-- are those of the page frame allocator. The making of a new table, which goes through the heap of
-- the kernel, is a parameter; the buffer of translations in the processor is not modelled.
pub mod Space
pub mod Cover
pub mod Pages
pub mod Reuse
pub mod Large
pub mod Order
pub mod Allocates
pub mod Ranges
use Prim.Native.Nat.{bit_and}
use stable_genius.Common.{
  ℕ, zero, suc, ◌+◌, ◌-◌, ◌*◌, ◌/◌, ◌%◌, ◌^◌, Bool, true, false, not, ◌&&◌, ◌||◌, ltb, leb, ◌==◌,
  if◌then◌else◌, first_from, is_some,
}
use stable_genius.Frames.{Frames}
use stable_genius.Frames

abbrev pub Table : Type 0
Table = ℕ → ℕ

-- `PdeSettings::writable`
abbrev pub writable : ℕ
writable = 0x002

-- `entry & PdeSettings::present` and `entry & PdeSettings::large`
abbrev pub present : ℕ → Bool
present entry = entry % 2 == 1

abbrev pub large : ℕ → Bool
large entry = entry / 0x80 % 2 == 1

-- `entry & 0xFFFFF000`
abbrev pub page_start : ℕ → ℕ
page_start entry = entry - entry % 2 ^ 12

-- `PageTable::sz` and `PageDescriptorTable::sz`
abbrev pub table_size : ℕ
table_size = 1024

abbrev pub pdt_index : ℕ → ℕ
pdt_index addr = addr / 2 ^ 22

abbrev pub pt_index : ℕ → ℕ
pt_index addr = addr / 2 ^ 12 % 2 ^ 10

pub record Paging : Type 0 where
  pub entries : Table
  pub virt_entries : Table
  pub tables : ℕ → Table
  pub pfa : Frames

unfoldable pub put : (i entry : ℕ) → Table → Table
put i entry t x = if x == i then entry else t x

unfoldable pub put_table : (pt : ℕ) → Table → (ℕ → Table) → ℕ → Table
put_table pt t ts x = if x == pt then t else ts x

-- `PageTable::PageTable`
abbrev pub page_table : Table
page_table i = writable

-- `PageTable::empty`
unfoldable pub is_empty : Table → Bool
is_empty t = not (is_some (first_from (λ i. present (t i)) table_size 0))

-- `PageTable::free(virt_addr)`
unfoldable pub clear_page : (virt_addr : ℕ) → Table → Table
clear_page virt_addr t = put (pt_index virt_addr) writable t

-- Whether `PageTable::set(page, n, conf, virt)` succeeds, and the table behind it
unfoldable pub sets_page : (page n conf : ℕ) → Bool
sets_page page n conf = not (leb table_size n || (not (page % 2 ^ 12 == 0) || leb (2 ^ 12) conf))

unfoldable pub set_page : (page n conf : ℕ) → Table → Table
set_page page n conf t = if sets_page page n conf then put n (page + conf) t else t

-- `PageDescriptorTable::get(n)`; 0 is `nullptr`.
unfoldable pub get_table : (n : ℕ) → Paging → ℕ
get_table n s = if leb table_size n || not (present (s.entries n)) then 0 else s.virt_entries n

-- `translate(virt_addr)`
unfoldable pub translate_small : (virt_addr pt : ℕ) → Paging → ℕ
translate_small addr pt s =
    let entry = s.tables pt (pt_index addr) in
    if pt == 0 || not (present entry) then 0 else page_start entry + addr % 2 ^ 12

unfoldable pub translate : (virt_addr : ℕ) → Paging → ℕ
translate addr s =
    let entry = s.entries (pdt_index addr) in
    if not (present entry)
    then 0
    else if large entry
    then (page_start entry + addr % 2 ^ 22) % 2 ^ 32
    else translate_small addr (get_table (pdt_index addr) s) s

-- The physical page of `allocate`: a new one, or the one that is given, rounded down.
unfoldable pub take_frame : Bool → (phys_addr : ℕ) → Frames → Frames × ℕ
take_frame is_large phys_addr f =
    if phys_addr == 0
    then Frames.allocate is_large f
    else (f, phys_addr - phys_addr % (if is_large then 2 ^ 22 else 2 ^ 12))

-- What a call of `allocate` leaves: the tables, the result, and whether the page was there already.
abbrev pub Allocated : Type 0
Allocated = Paging × Bool × Bool

-- The large page of an address
unfoldable pub allocate_large : (virt_addr conf : ℕ) → Frames × ℕ → Paging → Allocated
allocate_large addr conf (pfa, page) s =
    let s' = record s { pfa = pfa } in
    if page == 0
    then (s', false, false)
    else (record s' { entries = put (pdt_index addr) (bit_and page conf) s.entries }, true, false)

-- The last step of a small page, in the table that covers the address
unfoldable pub enter_page : (virt_addr page conf pt : ℕ) → Paging → Allocated
enter_page addr page conf pt s =
    let t = s.tables pt in
    let n = pt_index addr in
    if pt == 0
    then (s, false, false)
    else if present (t n)
    then (record s { pfa = Frames.free false page s.pfa }, true, true)
    else (
      record s { tables = put_table pt (set_page page n conf t) s.tables },
      sets_page page n conf,
      false,
    )

-- The small page of an address; `new_table` is `new_page_table`.
unfoldable pub allocate_small :
    (new_table : ℕ → ℕ → Paging → Paging) (virt_addr conf : ℕ) → Frames × ℕ → Paging → Allocated
allocate_small new_table addr conf (pfa, page) s =
    let s' = record s { pfa = pfa } in
    let i = pdt_index addr in
    let covered = if present (s'.entries i) then s' else new_table addr conf s' in
    if page == 0
    then (s', false, false)
    else enter_page addr page conf (get_table i covered) covered

-- `allocate(virt_addr, conf, phys_addr, recursive)`
unfoldable pub allocate_page :
    (new_table : ℕ → ℕ → Paging → Paging) (virt_addr conf phys_addr : ℕ) → Paging → Allocated
allocate_page new_table addr conf phys s =
    if not (present conf) || (leb (2 ^ 12) conf || not (translate addr s == 0))
    then (s, false, false)
    else if large conf
    then allocate_large addr conf (take_frame true phys s.pfa) s
    else allocate_small new_table addr conf (take_frame false phys s.pfa) s

-- `free(virt_addr, phys_free)`; a table that is empty then goes.
unfoldable pub drop_table : (i pt : ℕ) → Paging → Paging
drop_table i pt s =
    if is_empty (s.tables pt)
    then record s { entries = put i writable s.entries; virt_entries = put i 0 s.virt_entries }
    else s

unfoldable pub free_mapped : (virt_addr : ℕ) → Paging → Paging
free_mapped addr s =
    let i = pdt_index addr in
    let pt = get_table i s in
    if large (s.entries i)
    then record s { entries = put i writable s.entries }
    else drop_table i pt
        (record s { tables = put_table pt (clear_page addr (s.tables pt)) s.tables })

unfoldable pub free_page : (virt_addr : ℕ) (phys_free : Bool) → Paging → Paging
free_page addr phys_free s =
    let phys = translate addr s in
    let freed =
      if phys_free
      then record s { pfa = Frames.free (large (s.entries (pdt_index addr))) phys s.pfa }
      else s in
    if phys == 0 then s else free_mapped addr freed
