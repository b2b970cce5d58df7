-- ===== src/Files/Refs.antt =====
-- How the operations on files change the counts of the descriptions and the references to them.
use stable_genius.Common.{
  ℕ, ◌+◌, ◌-◌, ◌≤◌, ◌≡◌, inl, inr, refl, ◌∙◌, ◌&&◌, true, false, Option, none, some, [], ◌∷◌, ◌==◌,
  if◌then◌else◌, arith, Option-cases, Bool-cases,
}
use stable_genius.Common.Maps.{lookup, insert, erase, has, lookup-insert, lookup-erase}
use stable_genius.Common.Int.{ℤ, pos, negsuc, minus_one}
use stable_genius.Files.{
  FileTable, FileDescription, Descriptors, Vfs, file_description, open_file, close_file,
  close_found, copy_file, copy_found, close_each, copy_each,
}
use stable_genius.Files.Keys.{unused_key-total}

-- The number of descriptors that hold key `k`.
unfoldable pub refs : ℕ → Descriptors → ℕ
refs k [] = 0
refs k ((fd, key) ∷ fds) = (if k == key then 1 else 0) + refs k fds

-- The count of the description with key `k`, 0 if there is none.
abbrev pub count : Option FileDescription → ℕ
count none = 0
count (some d) = d.count

abbrev pub count_of : ℕ → FileTable → ℕ
count_of k t = count (lookup k t)

-- Each descriptor stands once.
unfoldable pub AllUnique : Descriptors → Type 0
AllUnique [] = Unit {0}
AllUnique ((fd, key) ∷ fds) = (has fd fds ≡ false) × AllUnique fds

pub insert-AllUnique :
    (fd key : ℕ) (fds : Descriptors)
    → has fd fds ≡ false
    → AllUnique fds
    → AllUnique (insert fd key fds)
unfolding AllUnique insert lookup
insert-AllUnique fd key [] new u = (refl, tt)
insert-AllUnique fd key ((j, w) ∷ fds) new u =
    ground (arith, lookup-insert fd j key fds, insert-AllUnique fd key fds)

pub erase-AllUnique : (fd : ℕ) (fds : Descriptors) → AllUnique fds → AllUnique (erase fd fds)
unfolding AllUnique erase
erase-AllUnique fd [] u = tt
erase-AllUnique fd ((j, w) ∷ fds) u =
    ground (arith, lookup-erase fd j fds, erase-AllUnique fd fds u.1)

pub refs-insert :
    (k fd key : ℕ) (fds : Descriptors)
    → has fd fds ≡ false
    → refs k (insert fd key fds) ≡ (if k == key then 1 else 0) + refs k fds
unfolding refs insert lookup
refs-insert k fd key [] new = refl
refs-insert k fd key ((j, w) ∷ fds) new = ground (arith, refs-insert k fd key fds)

refs-erase_absent :
    (k fd : ℕ) (fds : Descriptors) → has fd fds ≡ false → refs k (erase fd fds) ≡ refs k fds
unfolding refs erase lookup
refs-erase_absent k fd [] h = refl
refs-erase_absent k fd ((j, w) ∷ fds) h = ground (arith, refs-erase_absent k fd fds)

pub refs-erase :
    (k fd key : ℕ) (fds : Descriptors)
    → AllUnique fds
    → lookup fd fds ≡ some key
    → (if k == key then 1 else 0) + refs k (erase fd fds) ≡ refs k fds
unfolding AllUnique refs erase lookup
refs-erase k fd key [] u e = absurd (ground arith)
refs-erase k fd key ((j, w) ∷ fds) u e =
    ground (arith, refs-erase k fd key fds u.1, refs-erase_absent k fd fds)

-- What the operations of the file table do to the counts.
pub count_of-close_file :
    (k key : ℕ) (t : FileTable)
    → count_of k (close_file key t).0 ≡ count_of k t - (if k == key then 1 else 0)
unfolding close_file close_found
count_of-close_file k key t = elim (Option-cases (lookup key t)) [
  | inl e ↦ rw (e, close_found) (ground arith)
  | inr (d, e) ↦
      rw (e, close_found)
        (ground (
          arith,
          e,
          lookup-erase key k t,
          lookup-insert key k (record d { count = d.count - 1 }) t,
        ))
]

pub has-copy_file : (k key : ℕ) (t : FileTable) → has k (copy_file key t).0 ≡ has k t
unfolding copy_file copy_found
has-copy_file k key t = elim (Option-cases (lookup key t)) [
  | inl e ↦ rw (e, copy_found)
  | inr (d, e) ↦
      rw (e, copy_found)
        (ground (arith, e, lookup-insert key k (record d { count = d.count + 1 }) t))
]

pub count_of-copy_file :
    (k key : ℕ) (t : FileTable)
    → count_of k (copy_file key t).0 ≡ count_of k t + (if k == key && has key t then 1 else 0)
unfolding copy_file copy_found
count_of-copy_file k key t = elim (Option-cases (lookup key t)) [
  | inl e ↦ rw (e, copy_found) (ground arith)
  | inr (d, e) ↦
      rw (e, copy_found)
        (ground (arith, e, lookup-insert key k (record d { count = d.count + 1 }) t))
]

pub count_of-close_each :
    (k : ℕ) (fds : Descriptors) (t : FileTable) (ret : ℤ)
    → count_of k (close_each fds (t, ret)).0 ≡ count_of k t - refs k fds
unfolding close_each refs
count_of-close_each k [] t ret = omega arith
count_of-close_each k ((fd, key) ∷ fds) t ret = ground (
  arith,
  count_of-close_file k key t,
  count_of-close_each k fds (close_file key t).0
      (elim (close_file key t).1 [ pos n ↦ ret | negsuc n ↦ minus_one ]),
)

pub has-copy_each : (k : ℕ) (fds : Descriptors) (t : FileTable) → has k (copy_each fds t) ≡ has k t
unfolding copy_each
has-copy_each k [] t = refl
has-copy_each k ((fd, key) ∷ fds) t =
    has-copy_each k fds (copy_file key t).0 ∙ has-copy_file k key t

pub count_of-copy_each :
    (k : ℕ) (fds : Descriptors) (t : FileTable)
    → count_of k (copy_each fds t) ≡ count_of k t + (if has k t then refs k fds else 0)
unfolding copy_each refs
count_of-copy_each k [] t = ground arith
count_of-copy_each k ((fd, key) ∷ fds) t = ground (
  arith,
  count_of-copy_file k key t,
  has-copy_file k key t,
  count_of-copy_each k fds (copy_file key t).0,
)

-- No operation leaves a description with the count 0.
abbrev pub IsLive : ℕ → FileTable → Type 0
IsLive k t = has k t ≡ true → 1 ≤ count_of k t

pub close_file-IsLive : (k key : ℕ) (t : FileTable) → IsLive k t → IsLive k (close_file key t).0
unfolding close_file close_found
close_file-IsLive k key t live = elim (Option-cases (lookup key t)) [
  | inl e ↦ rw (e, close_found) live
  | inr (d, e) ↦
      rw (e, close_found)
        (ground (
          arith,
          live,
          lookup-erase key k t,
          lookup-insert key k (record d { count = d.count - 1 }) t,
        ))
]

pub copy_file-IsLive : (k key : ℕ) (t : FileTable) → IsLive k t → IsLive k (copy_file key t).0
copy_file-IsLive k key t live =
    ground (arith, live, has-copy_file k key t, count_of-copy_file k key t)

pub close_each-IsLive :
    (k : ℕ) (fds : Descriptors) (t : FileTable) (ret : ℤ)
    → IsLive k t
    → IsLive k (close_each fds (t, ret)).0
unfolding close_each
close_each-IsLive k [] t ret live = live
close_each-IsLive k ((fd, key) ∷ fds) t ret live =
    close_each-IsLive k fds (close_file key t).0 _ (close_file-IsLive k key t live)

pub copy_each-IsLive :
    (k : ℕ) (fds : Descriptors) (t : FileTable) → IsLive k t → IsLive k (copy_each fds t)
unfolding copy_each
copy_each-IsLive k [] t live = live
copy_each-IsLive k ((fd, key) ∷ fds) t live =
    copy_each-IsLive k fds (copy_file key t).0 (copy_file-IsLive k key t live)

-- Opening gives an unused key a count of 1, or fails and leaves every count.
pub data Opened (t : FileTable) : Option (FileTable × ℤ) → Type 0 where
  opened :
      (key : ℕ) (d : FileDescription)
      → has key t ≡ false
      → d.count ≡ 1
      → Opened t (some (insert key d t, pos key))
  refused :
      (t' : FileTable) → ((k : ℕ) → lookup k t' ≡ lookup k t) → Opened t (some (t', minus_one))

pub open_file-Opened :
    (vfs : Vfs) (name mode : ℕ) (t : FileTable) → Opened t (open_file vfs name mode t)
unfolding open_file file_description
open_file-Opened vfs name mode t =
    let (key, hit, unused) = unused_key-total 1 t in
    let undone : (k : ℕ) (d : FileDescription)
        → lookup k (erase key (insert key d t)) ≡ lookup k t =
      λ k d.
        ground
          (arith, lookup-erase key k (insert key d t), lookup-insert key k d t, unused.unused) in
    elim (Bool-cases (vfs.opens name mode)) [
      | inl yes_opens ↦ rw (hit, open_file, yes_opens) (opened key _ unused.unused refl)
      | inr not_open ↦ rw (hit, open_file, not_open) (refused _ λ k. undone k _)
    ]
