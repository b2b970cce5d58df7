-- ===== src/MemoryFiles/Removal.antt =====
-- What the removal and the renaming of files do to the names and to the inodes.
use stable_genius.Common.{
  ℕ, ◌+◌, ◌-◌, ◌≤◌, ◌≡◌, ◌≢◌, refl, true, none, some, arith, Option-cases, inl, inr, ◌==◌, ◌∙◌,
}
use stable_genius.Common.Int.{pos, minus_one}
use stable_genius.MemoryFiles.{
  Name, MemoryFileSystem, MemoryInode, same_name, find, assign, erase_name, store, new_inode,
  create_mapping, create_file, drop_link, delete_mapping, delete_file, with_slash, rmdir, unlink,
  rename,
}
use stable_genius.MemoryFiles.Names.{
  same_name_refl, same_name→eq, find-erase_name, find-assign, find-any_below,
}

-- `rmdir` removes no directory: whatever the files, the name and the files that are open, it answers -1
-- and leaves the file system as it is.
rmdir-refuses :
    (is_open : Name → ℕ) (name : Name) (fs : MemoryFileSystem)
    → rmdir is_open name fs ≡ some (fs, minus_one)
unfolding rmdir
rmdir-refuses is_open name fs = elim (Option-cases (find (with_slash name) fs.files)) [
  | inl e ↦ ground (arith, e)
  | inr (i, e) ↦ ground (arith, e, find-any_below (with_slash name) i fs.files e)
]

-- A last link of a closed file
drop_link-last :
    (name : Name) (i : ℕ) (d : MemoryInode) (fs : MemoryFileSystem)
    → fs.inodes i ≡ some d
    → d.no_links ≤ 1
    → drop_link name true i fs
      ≡ some (record fs { inodes = store i none fs.inodes; files = erase_name name fs.files })
unfolding drop_link
drop_link-last name i d fs e last =
    let gone : (d.no_links - 1 == 0) ≡ true = ground (arith, last) in ground (arith, e, gone)

create_mapping-fresh :
    (n : Name) (i : ℕ) (fs : MemoryFileSystem)
    → find n fs.files ≡ none
    → fs.inodes i ≡ none
    → (find n (create_mapping n i fs).files ≡ some i) × ((create_mapping n i fs).inodes i ≡ none)
unfolding create_mapping store
create_mapping-fresh n i fs absent gone =
    let new : find n (assign n i fs.files) ≡ some i =
      find-assign n i n fs.files ∙ rw (same_name_refl n) refl in
    (ground (arith, absent, new), ground (arith, absent, gone))

-- A name that is found of a closed file with one link
delete_mapping-last :
    (is_open : Name → ℕ) (f : Name) (i : ℕ) (d : MemoryInode) (fs : MemoryFileSystem)
    → find f fs.files ≡ some i
    → fs.inodes i ≡ some d
    → d.no_links ≤ 1
    → is_open f ≡ 0
    → delete_mapping is_open f fs
      ≡ some (record fs { inodes = store i none fs.inodes; files = erase_name f fs.files })
unfolding delete_mapping
delete_mapping-last is_open f i d fs named inode last closed =
    let drop = drop_link-last f i d fs inode last in
    let may_go : (is_open f == 0) ≡ true = rw closed refl in ground (arith, named, may_go, drop)

-- A renamed file is lost: if it has one link and no one has it open, `rename` to a name that is not in
-- use ends, and the new name maps to the inode of the old one, which `rename` has deleted.
pub rename-dangles :
    (is_open : Name → ℕ) (f n : Name) (i : ℕ) (d : MemoryInode) (fs : MemoryFileSystem)
    → find f fs.files ≡ some i
    → fs.inodes i ≡ some d
    → d.no_links ≤ 1
    → is_open f ≡ 0
    → find n fs.files ≡ none
    → (fs' : MemoryFileSystem) × (rename is_open f n fs ≡ some fs')
      × (find n fs'.files ≡ some i)
      × (fs'.inodes i ≡ none)
unfolding rename store
rename-dangles is_open f n i d fs named inode last closed absent =
    let rest : MemoryFileSystem = record fs {
      inodes = store i none fs.inodes;
      files = erase_name f fs.files;
    } in
    let removed = delete_mapping-last is_open f i d fs named inode last closed in
    let absent' : find n rest.files ≡ none =
      find-erase_name f n fs.files ∙ ground (arith, absent) in
    let gone : rest.inodes i ≡ none = ground arith in
    let (new, dead) = create_mapping-fresh n i rest absent' gone in
    (create_mapping n i rest, ground (arith, named, removed), new, dead)

absent_at :
    (name j : Name) (fs : MemoryFileSystem)
    → find name fs.files ≡ none
    → same_name name j ≡ true
    → find j fs.files ≡ none
absent_at name j fs absent h = rw (← same_name→eq name j h) absent

-- A file that is created and then removed by `unlink`, while no one has it open, leaves no trace: the
-- removal ends with 0, each name maps to what it did before, and every inode is as it was but that
-- at the file's own address. It asks for a name that is not in use.
unlink-create_file :
    (is_open : Name → ℕ) (name : Name) (sz : ℕ) (fs : MemoryFileSystem)
    → find name fs.files ≡ none
    → is_open name ≡ 0
    → (fs' : MemoryFileSystem) × (unlink is_open name (create_file name sz fs) ≡ some (fs', pos 0))
      × ((j : Name) → find j fs'.files ≡ find j fs.files)
      × ((i : ℕ) → i ≢ fs.fresh + 1 → fs'.inodes i ≡ fs.inodes i)
unfolding unlink delete_file create_file new_inode store
unlink-create_file is_open name sz fs absent closed =
    let i = fs.fresh + 1 in
    let d : MemoryInode = record { addr = fs.fresh; sz = sz; no_links = 1 } in
    let made : MemoryFileSystem = record {
      files = assign name i fs.files;
      inodes = store i (some d) fs.inodes;
      fresh = fs.fresh + 1 + 1;
    } in
    let same : create_file name sz fs ≡ made = ground (arith, absent) in
    let named : find name made.files ≡ some i =
      find-assign name i name fs.files ∙ rw (same_name_refl name) refl in
    let there : made.inodes i ≡ some d = ground arith in
    let may_go : (is_open name == 0) ≡ true = rw closed refl in
    let drop = drop_link-last name i d made there (omega arith) in
    (
      record made { inodes = store i none made.inodes; files = erase_name name made.files },
      ground (arith, same, named, may_go, drop),
      λ j.
          find-erase_name name j made.files
          ∙ ground (arith, find-assign name i j fs.files, absent, absent_at name j fs absent),
      λ x other. ground (arith, other),
    )
