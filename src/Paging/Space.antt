-- ===== src/Paging/Space.antt =====
-- The operations of kernel/cpp/PageDescriptorTable.cpp on ranges of pages: `map`, `unmap` and those on
-- the space of a user process.
use stable_genius.Common.{
  ℕ, zero, suc, ◌+◌, ◌-◌, ◌*◌, ◌/◌, ◌%◌, ◌^◌, Bool, true, false, not, Option, none, some, ltb, leb,
  ◌==◌, ◌||◌, if◌then◌else◌, first_from,
}
use stable_genius.Frames.{Frames}
use stable_genius.Paging.{
  Table, Paging, writable, table_size, put, translate, allocate_page, free_page,
}

abbrev pub page_bytes : ℕ
page_bytes = 2 ^ 12

-- How many pages `map` and `unmap` take for `size` bytes from an address on
unfoldable pub pages_of : (addr size : ℕ) → ℕ
pages_of addr size = (size + addr % page_bytes) % 2 ^ 32 / page_bytes + 1

-- `unmap(virt_addr, size)`: its loop, and the call
unfoldable pub unmap_loop : (rounds addr : ℕ) → Paging → Paging
unmap_loop zero addr s = s
unmap_loop (suc n) addr s = unmap_loop n ((addr + page_bytes) % 2 ^ 32) (free_page addr false s)

unfoldable pub unmap : (virt_addr size : ℕ) → Paging → Paging
unmap addr size s = unmap_loop (pages_of addr size) (addr - addr % page_bytes) s

-- The first page from `page_no` on that is mapped, of `pages` ones
unfoldable pub first_mapped : (pages page_no : ℕ) → Paging → Option ℕ
first_mapped pages page_no s =
    first_from (λ test_no. not (translate ((page_no + test_no) * page_bytes % 2 ^ 32) s == 0)) pages
      0

-- The search of `map` from the hint on, on fuel
unfoldable pub search_up : (fuel pages page_no : ℕ) → Paging → Option ℕ
search_up zero pages page_no s = none
search_up (suc n) pages page_no s =
    let next : Option ℕ = elim (first_mapped pages page_no s) [
      | none ↦ some (page_no * page_bytes)
      | some test_no ↦ search_up n pages (page_no + test_no + 1) s
    ] in
    if ltb page_no (2 ^ 20) then next else some 0

-- The search below the hint: it tests the first page only, and goes on behind a hit.
unfoldable pub search_below : (fuel pages hint page_no found : ℕ) → Paging → Option ℕ
search_below zero pages hint page_no found s = none
search_below (suc n) pages hint page_no found s =
    let free_here = translate (page_no * page_bytes) s == 0 || pages == 0 in
    let next =
      search_below n pages hint (page_no + 1) (if free_here then page_no * page_bytes else found)
        s in
    if ltb page_no hint then next else some found

unfoldable pub find_space : (pages hint : ℕ) → Paging → Option ℕ
find_space pages hint s = elim (search_up (2 ^ 20 + 1) pages (hint / page_bytes) s) [
  | none ↦ none
  | some virt ↦
      if virt == 0 then search_below (2 ^ 20 + 1) pages (hint / page_bytes) 0 0 s else some virt
]

-- The loop of `map` over the pages, and whether each could be allocated
unfoldable pub map_loop :
    (new_table : ℕ → ℕ → Paging → Paging) (rounds virt phys : ℕ) → Paging → Paging × Bool
map_loop new_table zero virt phys s = (s, true)
map_loop new_table (suc n) virt phys s =
    let (s', given, _) = allocate_page new_table virt 3 phys s in
    let rest =
      map_loop new_table n ((virt + page_bytes) % 2 ^ 32) ((phys + page_bytes) % 2 ^ 32) s' in
    if given then rest else (s', false)

-- `map(phys_addr, size, hint)`; the result 0 is `nullptr`.
unfoldable pub map_pages :
    (new_table : ℕ → ℕ → Paging → Paging) (phys size hint : ℕ) → Paging → Option (Paging × ℕ)
map_pages new_table phys size hint s =
    let pages = pages_of phys size in
    let offset = phys % page_bytes in
    elim (find_space pages hint s) [
      | none ↦ none
      | some virt ↦
          if virt == 0
          then some (s, 0)
          else (let (s', given) = map_loop new_table pages virt (phys - offset) s in
              some (s', if given then virt + offset else 0))
    ]

-- `PageDescriptorTable(pfa)`
unfoldable pub page_directory : (tables : ℕ → Table) (pfa : Frames) → Paging
page_directory ts f = record {
  entries = λ i. writable;
  virt_entries = λ i. 0;
  tables = ts;
  pfa = f;
}

-- `set(pt, n, conf)` of the directory, and whether it succeeds
unfoldable pub set_table : (pt n conf : ℕ) → Paging → Paging × Bool
set_table pt n conf s =
    let entry = translate pt s in
    if leb table_size n || (not (entry % 2 ^ 12 == 0) || leb (2 ^ 12) conf) then (s, false) else (
      record s { entries = put n (entry + conf) s.entries; virt_entries = put n pt s.virt_entries },
      true,
    )

-- `clean_user_space(end)`
unfoldable pub clean_user_space : (end : ℕ) → Paging → Paging
clean_user_space end s = record s {
  entries = λ i. if ltb i (end / 2 ^ 22) then writable else s.entries i;
  virt_entries = λ i. if ltb i (end / 2 ^ 22) then 0 else s.virt_entries i;
}

-- `update_user_space(other, end)`
unfoldable pub update_user_space : (other : Paging) (end : ℕ) → Paging → Paging
update_user_space other end s = record s {
  entries = λ i. if ltb i (end / 2 ^ 22) then other.entries i else s.entries i;
  virt_entries = λ i. if ltb i (end / 2 ^ 22) then other.virt_entries i else s.virt_entries i;
}

-- The inner loop of `free_user_space(end, phys_free)`, over `pt_index`, and the outer one
unfoldable pub free_pages : (rounds pt_index pdt_index : ℕ) (phys_free : Bool) → Paging → Paging
free_pages zero j i phys_free s = s
free_pages (suc n) j i phys_free s =
    free_pages n (j + 1) i phys_free (free_page (i * page_bytes + j * page_bytes) phys_free s)

unfoldable pub free_tables : (rounds pdt_index : ℕ) (phys_free : Bool) → Paging → Paging
free_tables zero i phys_free s = s
free_tables (suc n) i phys_free s =
    free_tables n (i + 1) phys_free
      (if s.virt_entries i == 0 then s else free_pages page_bytes 0 i phys_free s)

unfoldable pub free_user_space : (end : ℕ) (phys_free : Bool) → Paging → Paging
free_user_space end phys_free s = free_tables (end / 2 ^ 22) 0 phys_free s

-- `trim_pdt(pdt, end, max)`, on fuel
unfoldable pub trim_loop : (fuel end max : ℕ) → Paging → Option Paging
trim_loop zero end max s = none
trim_loop (suc n) end max s =
    let next = trim_loop n ((end + page_bytes) % 2 ^ 32) max (free_page end true s) in
    if ltb end max then next else some s

unfoldable pub trim_pdt : (end max : ℕ) → Paging → Option Paging
trim_pdt end max s = trim_loop (2 ^ 20 + 1) ((end / 2 ^ 12 + 1) * 2 ^ 12 % 2 ^ 32) max s
