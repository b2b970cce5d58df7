-- ===== src/Files.antt =====
-- The open files: `class FileTable` of kernel/cpp/ProcTable.cpp, the table of file descriptions that
-- all processes share, and the descriptor tables of kernel/cpp/Process.cpp that refer to it by key.
-- The file stream of a description is not modelled; what opening a file finds out is a parameter.
pub mod Keys
pub mod Refs
pub mod Shared
pub mod Open
use stable_genius.Common.{
  ℕ, zero, suc, ◌+◌, ◌-◌, ◌≤◌, Bool, true, false, not, Option, none, some, List, [], ◌∷◌, leb, ◌==◌,
  if◌then◌else◌, first_from, length,
}
use stable_genius.Common.Maps.{Map, lookup, insert, erase, has}
use stable_genius.Common.Int.{ℤ, pos, negsuc, minus_one}

-- What the constructor of a description learns from the file systems: the device, if any, on which
-- the named file lies, and whether the stream opens in the given mode.
pub record Vfs : Type 0 where
  pub device : ℕ → Option ℕ
  pub opens : ℕ → ℕ → Bool

-- File names, modes and devices are numbers here; nothing but equality of names is asked of them.
pub record FileDescription : Type 0 where
  pub name : ℕ
  pub count : ℕ
  pub dev : Option ℕ

unfoldable pub file_description : Vfs → (name mode : ℕ) → FileDescription
file_description vfs name mode = record {
  name = name;
  count = if vfs.opens name mode then 1 else 0;
  dev = vfs.device name;
}

abbrev pub FileTable : Type 0
FileTable = Map FileDescription

-- `for (key = start; m.find(key) != m.end(); ++key) ;`: it passes one key for each entry at most.
unfoldable pub unused_key {ℓ} : {V : Type ℓ} → (start : ℕ) → Map V → Option ℕ
unused_key start m = first_from (λ key. not (has key m)) (suc (length m)) start

-- `FileTable::open_file`; the result `none` stands for a search that does not end.
unfoldable pub open_file : Vfs → (name mode : ℕ) → FileTable → Option (FileTable × ℤ)
open_file vfs name mode t = elim (unused_key 1 t) [
  | none ↦ none
  | some key ↦
      let d = file_description vfs name mode in
      some (
        if d.count == 0 then (erase key (insert key d t), minus_one) else (insert key d t, pos key))
]

-- `FileTable::close_file`. A count of 0 would fall to -1 and end the description as well.
pub close_found : ℕ → FileTable → Option FileDescription → FileTable × ℤ
close_found key t none = (t, minus_one)
close_found key t (some d) =
    if leb (d.count) 1
    then (erase key t, pos 0)
    else (insert key (record d { count = d.count - 1 }) t, pos 0)

pub close_file : ℕ → FileTable → FileTable × ℤ
close_file key t = close_found key t (lookup key t)

-- `FileTable::copy_file`
pub copy_found : ℕ → FileTable → Option FileDescription → FileTable × ℤ
copy_found key t none = (t, minus_one)
copy_found key t (some d) = (insert key (record d { count = d.count + 1 }) t, pos 0)

pub copy_file : ℕ → FileTable → FileTable × ℤ
copy_file key t = copy_found key t (lookup key t)

-- `FileTable::is_open`: the count of the first description in the order of the keys with the name.
unfoldable pub is_open : ℕ → FileTable → ℕ
is_open name [] = 0
is_open name ((k, d) ∷ t) = if name == d.name then d.count else is_open name t

-- `FileTable::get_dev`
unfoldable pub get_dev : ℕ → FileTable → Option ℕ
get_dev key t = elim (lookup key t) [ none ↦ none | some d ↦ d.dev ]

-- A process's descriptor table, from descriptors to keys.
abbrev pub Descriptors : Type 0
Descriptors = Map ℕ

-- `Process::open_file`
unfoldable pub add_descriptor : Descriptors → FileTable × ℤ → Option (Descriptors × FileTable × ℤ)
add_descriptor fds (t, negsuc n) = some (fds, t, minus_one)
add_descriptor fds (t, pos key) = elim (unused_key 0 fds) [
  | none ↦ none
  | some fd ↦ some (insert fd key fds, t, pos fd)
]

unfoldable pub process_open :
    Vfs → (name mode : ℕ) → Descriptors → FileTable → Option (Descriptors × FileTable × ℤ)
process_open vfs name mode fds t = elim (open_file vfs name mode t) [
  | none ↦ none
  | some r ↦ add_descriptor fds r
]

-- `Process::close_file(-1)`: the loop over the descriptors, with the result so far.
pub close_each : Descriptors → FileTable × ℤ → FileTable × ℤ
close_each [] r = r
close_each ((fd, key) ∷ fds) (t, ret) =
    let (t', ret2) = close_file key t in
    close_each fds (t', elim ret2 [ pos n ↦ ret | negsuc n ↦ minus_one ])

-- `Process::close_file(fd)` at a descriptor from 0 up.
pub close_one : ℕ → Descriptors → FileTable → Descriptors × FileTable × ℤ
close_one fd fds t = elim (lookup fd fds) [
  | none ↦ (fds, t, minus_one)
  | some key ↦ let (t', ret) = close_file key t in (erase fd fds, t', ret)
]

-- `Process::close_file`; no descriptor is below 0.
pub process_close : ℤ → Descriptors → FileTable → Descriptors × FileTable × ℤ
process_close (pos fd) fds t = close_one fd fds t
process_close (negsuc zero) fds t = let (t', ret) = close_each fds (t, pos 0) in ([], t', ret)
process_close (negsuc (suc n)) fds t = (fds, t, minus_one)

-- The copy of the descriptors in `fork_duplicate` and `exec_duplicate`.
pub copy_each : Descriptors → FileTable → FileTable
copy_each [] t = t
copy_each ((fd, key) ∷ fds) t = copy_each fds (copy_file key t).0

pub duplicate_files : Descriptors → FileTable → Descriptors × FileTable
duplicate_files fds t = (fds, copy_each fds t)

-- `Process::get_fd_key`
unfoldable pub get_fd_key : ℕ → Descriptors → ℕ
get_fd_key fd fds = elim (lookup fd fds) [ none ↦ 0 | some key ↦ key ]
