-- ===== src/Files/Open.antt =====
-- `Process::open_file` on both of its outcomes.
use stable_genius.Common.{ℕ, ◌≡◌, true, false, some, if◌then◌else◌, ◌==◌, arith}
use stable_genius.Common.Maps.{lookup, insert, erase, lookup-insert, lookup-erase}
use stable_genius.Common.Int.{pos, minus_one}
use stable_genius.Files.{
  FileTable, FileDescription, Descriptors, Vfs, file_description, open_file, process_open,
  add_descriptor,
}
use stable_genius.Files.Keys.{unused_key-total, IsLeastUnused}

-- `Process::open_file` ends. If the file opens, the result is the least unused descriptor, and it
-- leads to a new description, of count 1 and with the file's name and device, at the least key from
-- 1 up that was unused; the other descriptors and descriptions stay.
process_open-opens :
    (vfs : Vfs) (name mode : ℕ) (fds : Descriptors) (t : FileTable) (j : ℕ)
    → vfs.opens name mode ≡ true
    → (fd : ℕ) × (key : ℕ) × (fds' : Descriptors) × (t' : FileTable) × (process_open vfs name mode
          fds t
        ≡ some (fds', t', pos fd))
      × IsLeastUnused 0 fds fd
      × IsLeastUnused 1 t key
      × (lookup j fds' ≡ (if fd == j then some key else lookup j fds))
      × (lookup j t' ≡ (
          if key == j
          then some (record { name = name; count = 1; dev = vfs.device name })
          else lookup j t))
unfolding process_open open_file file_description add_descriptor
process_open-opens vfs name mode fds t j ok =
    let (key, hit, new) = unused_key-total 1 t in
    let (fd, hit', new') = unused_key-total 0 fds in
    let d : FileDescription = record { name = name; count = 1; dev = vfs.device name } in
    (
      fd,
      key,
      insert fd key fds,
      insert key d t,
      ground (arith, hit, hit', ok),
      new',
      new,
      lookup-insert fd j key fds,
      lookup-insert key j d t,
    )

-- If the file does not open, the result is -1 and every descriptor and description stays.
process_open-fails :
    (vfs : Vfs) (name mode : ℕ) (fds : Descriptors) (t : FileTable) (j : ℕ)
    → vfs.opens name mode ≡ false
    → (t' : FileTable) × (process_open vfs name mode fds t ≡ some (fds, t', minus_one))
      × (lookup j t' ≡ lookup j t)
unfolding process_open open_file file_description add_descriptor
process_open-fails vfs name mode fds t j bad =
    let (key, hit, new) = unused_key-total 1 t in
    let d : FileDescription = record { name = name; count = 0; dev = vfs.device name } in
    (
      erase key (insert key d t),
      ground (arith, hit, bad),
      ground (arith, lookup-erase key j (insert key d t), lookup-insert key j d t, new.unused),
    )
