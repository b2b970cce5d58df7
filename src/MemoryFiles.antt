-- ===== src/MemoryFiles.antt =====
-- kernel/cpp/MemoryFileSystem.cpp: a file system in memory, a map from names to inodes. Two names of a
-- file share its inode, so the inodes stand in a store by their addresses, and one that is deleted
-- is gone from it. A name is the list of its characters. The number of times that a file is open,
-- by the file table, is a parameter. The bytes of the files are not modelled.
pub mod Names
pub mod Removal
use stable_genius.Common.{
  ℕ, zero, suc, ◌+◌, ◌-◌, ◌^◌, Bool, true, false, not, ◌&&◌, Option, none, some, List, [], ◌∷◌,
  ◌++◌, ltb, ◌==◌, if◌then◌else◌,
}
use stable_genius.Common.Int.{ℤ, pos, minus_one}

abbrev pub Name : Type 0
Name = List ℕ

unfoldable pub same_name : Name → Name → Bool
same_name [] [] = true
same_name (a ∷ as') (b ∷ bs) = a == b && same_name as' bs
same_name _ _ = false

-- The order of the map, and `s.find(prefix) == 0`
unfoldable pub name_lt : Name → Name → Bool
name_lt _ [] = false
name_lt [] (b ∷ bs) = true
name_lt (a ∷ as') (b ∷ bs) = if a == b then name_lt as' bs else ltb a b

unfoldable pub starts_with : (prefix s : Name) → Bool
starts_with [] s = true
starts_with (p ∷ ps) [] = false
starts_with (p ∷ ps) (c ∷ cs) = p == c && starts_with ps cs

-- `addr` is 0 for `nullptr`; `sz` is the size of what is allocated there.
pub record MemoryInode : Type 0 where
  pub addr : ℕ
  pub sz : ℕ
  pub no_links : ℕ

abbrev pub FileMap : Type 0
FileMap = List (Name × ℕ)

-- `fresh` is the address that the next `new` returns.
pub record MemoryFileSystem : Type 0 where
  pub files : FileMap
  pub inodes : ℕ → Option MemoryInode
  pub fresh : ℕ

unfoldable pub find : Name → FileMap → Option ℕ
find name [] = none
find name ((k, i) ∷ rest) = if same_name k name then some i else find name rest

-- `files[name] = inode`
unfoldable pub assign : Name → ℕ → FileMap → FileMap
assign name i [] = (name, i) ∷ []
assign name i ((k, j) ∷ rest) =
    let behind = assign name i rest in
    if same_name k name
    then (name, i) ∷ rest
    else if name_lt name k
    then (name, i) ∷ (k, j) ∷ rest
    else (k, j) ∷ behind

unfoldable pub erase_name : Name → FileMap → FileMap
erase_name name [] = []
erase_name name ((k, j) ∷ rest) =
    let behind = erase_name name rest in if same_name k name then behind else (k, j) ∷ behind

unfoldable pub store : ℕ → Option MemoryInode → (ℕ → Option MemoryInode) → ℕ → Option MemoryInode
store i d s x = if x == i then d else s x

abbrev pub set_inode : ℕ → Option MemoryInode → MemoryFileSystem → MemoryFileSystem
set_inode i d fs = record fs { inodes = store i d fs.inodes }

-- Whether some name maps to an inode
unfoldable pub mapped : ℕ → FileMap → Bool
mapped i [] = false
mapped i ((k, j) ∷ rest) = if j == i then true else mapped i rest

abbrev plus_link : Option MemoryInode → Option MemoryInode
plus_link none = none
plus_link (some d) = some (record d { no_links = d.no_links + 1 })

-- `create_mapping(name, mi)`
unfoldable pub create_mapping : Name → ℕ → MemoryFileSystem → MemoryFileSystem
create_mapping name i fs = elim (find name fs.files) [
  | some j ↦ fs
  | none ↦
      let linked = if mapped i fs.files then set_inode i (plus_link (fs.inodes i)) fs else fs in
      record linked { files = assign name i fs.files }
]

-- `new MemoryInode {addr, sz, 1}`
unfoldable pub new_inode : (addr sz : ℕ) → MemoryFileSystem → MemoryFileSystem × ℕ
new_inode addr sz fs =
    let d : MemoryInode = record { addr = addr; sz = sz; no_links = 1 } in
    (record fs { inodes = store fs.fresh (some d) fs.inodes; fresh = fs.fresh + 1 }, fs.fresh)

-- `create_mapping(name, addr, sz)`
unfoldable pub create_mapping_at : Name → (addr sz : ℕ) → MemoryFileSystem → MemoryFileSystem
create_mapping_at name addr sz fs = let (fs', i) = new_inode addr sz fs in create_mapping name i fs'

-- `create_file(name, sz)`; `files.emplace` stands behind a search that found nothing.
unfoldable pub create_file : Name → (sz : ℕ) → MemoryFileSystem → MemoryFileSystem
create_file name sz fs = elim (find name fs.files) [
  | some j ↦ fs
  | none ↦
      let addr = fs.fresh in
      let (fs', i) = new_inode addr sz (record fs { fresh = fs.fresh + 1 }) in
      record fs' { files = assign name i fs'.files }
]

-- A link less, down to 0
abbrev pub minus_link : MemoryInode → MemoryInode
minus_link d = record d { no_links = d.no_links - 1 }

-- What `delete_mapping` and `delete_file` do at a name that is found: the inode and the name go when
-- the last link does and the file may go. A deleted inode is not there to be read.
unfoldable pub drop_link : Name → (may_go : Bool) → ℕ → MemoryFileSystem → Option MemoryFileSystem
drop_link name may_go i fs = elim (fs.inodes i) [
  | none ↦ none
  | some d ↦
      let kept = set_inode i (some (minus_link d)) fs in
      if (minus_link d).no_links == 0 && may_go
      then some (record (set_inode i none fs) { files = erase_name name fs.files })
      else some kept
]

-- `delete_mapping(name)`; `none` is a read of a deleted inode.
unfoldable pub delete_mapping :
    (is_open : Name → ℕ) → Name → MemoryFileSystem → Option MemoryFileSystem
delete_mapping is_open name fs = elim (find name fs.files) [
  | none ↦ some fs
  | some i ↦ drop_link name (is_open name == 0) i fs
]

-- `delete_file(name, ft_check)`
unfoldable pub delete_file :
    (is_open : Name → ℕ) → Name → (ft_check : Bool) → MemoryFileSystem → Option MemoryFileSystem
delete_file is_open name ft_check fs = elim (find name fs.files) [
  | none ↦ some fs
  | some i ↦ drop_link name (if ft_check then is_open name == 0 else true) i fs
]

-- Whether a name ends with a slash; the source reads before the start of an empty name.
unfoldable pub ends_with_slash : Name → Bool
ends_with_slash [] = false
ends_with_slash (c ∷ []) = c == b'/'
ends_with_slash (c ∷ d ∷ cs) = ends_with_slash (d ∷ cs)

unfoldable pub with_slash : Name → Name
with_slash name = if ends_with_slash name then name else name ++ b'/' ∷ []

-- Whether a name in the map starts with another.
unfoldable pub any_below : Name → FileMap → Bool
any_below prefix [] = false
any_below prefix ((k, i) ∷ rest) = if starts_with prefix k then true else any_below prefix rest

-- `rmdir(name)`
unfoldable pub rmdir :
    (is_open : Name → ℕ) → Name → MemoryFileSystem → Option (MemoryFileSystem × ℤ)
rmdir is_open name fs =
    let tmp = with_slash name in
    elim (find tmp fs.files) [
      | none ↦ some (fs, minus_one)
      | some i ↦
          if any_below tmp fs.files
          then some (fs, minus_one)
          else elim (delete_file is_open name true fs) [
            | none ↦ none
            | some fs' ↦ some (fs', pos 0)
          ]
    ]

-- `unlink(name)`
unfoldable pub unlink :
    (is_open : Name → ℕ) → Name → MemoryFileSystem → Option (MemoryFileSystem × ℤ)
unlink is_open name fs = elim (find name fs.files) [
  | none ↦ some (fs, minus_one)
  | some i ↦ elim (delete_file is_open name true fs) [ none ↦ none | some fs' ↦ some (fs', pos 0) ]
]

-- `rename(f, n)`
unfoldable pub rename :
    (is_open : Name → ℕ) → (f n : Name) → MemoryFileSystem → Option MemoryFileSystem
rename is_open f n fs = elim (find f fs.files) [
  | none ↦ some fs
  | some i ↦ elim (delete_mapping is_open f fs) [
    | none ↦ none
    | some fs' ↦ some (create_mapping n i fs')
  ]
]
