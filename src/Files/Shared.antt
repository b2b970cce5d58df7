-- ===== src/Files/Shared.antt =====
-- The file table and the descriptor tables of all processes together: every count is the number of
-- descriptors that refer to the description, whatever the processes do.
use stable_genius.Common.{
  ℕ, zero, suc, ◌+◌, ◌≤◌, ◌≡◌, ◌↔◌, inl, inr, refl, ◌++◌, true, Option, none, some, List, [], ◌∷◌,
  arith, Option-cases,
}
use stable_genius.Common.Maps.{lookup, insert, has, lookup-insert}
use stable_genius.Common.Int.{ℤ, pos, negsuc}
use stable_genius.Files.{
  FileTable, Descriptors, Vfs, open_file, copy_each, process_open, add_descriptor, process_close,
  close_one, duplicate_files,
}
use stable_genius.Files.Keys.{unused_key-total}
use stable_genius.Files.Refs.{
  refs, count_of, AllUnique, IsLive, close_file-IsLive, close_each-IsLive, copy_each-IsLive,
  insert-AllUnique, erase-AllUnique, refs-insert, refs-erase, count_of-close_file,
  count_of-close_each, count_of-copy_each, Opened, opened, refused, open_file-Opened,
}

-- The descriptor tables of the processes, and the file table.
pub record System : Type 0 where
  pub procs : List Descriptors
  pub files : FileTable

-- The number of descriptors, of all processes, that hold key `k`.
abbrev pub all_refs : ℕ → List Descriptors → ℕ
all_refs k [] = 0
all_refs k (fds ∷ ps) = refs k fds + all_refs k ps

abbrev pub AllTables : List Descriptors → Type 0
AllTables [] = Unit {0}
AllTables (fds ∷ ps) = AllUnique fds × AllTables ps

-- Every count is the number of references, no description has the count 0, and no process holds a
-- descriptor twice.
pub record IsConsistent (s : System) : Type 0 where
  pub counts : (k : ℕ) → count_of k s.files ≡ all_refs k s.procs
  pub live : (k : ℕ) → IsLive k s.files
  pub unique : AllTables s.procs

-- One process, among the others, calls an operation on its files; `forks` adds the child.
pub data Step : System → System → Type 0 where
  opens :
      (ps qs : List Descriptors) (fds fds' : Descriptors) (t t' : FileTable) (r : ℤ) (vfs : Vfs)
      (name mode : ℕ)
      → process_open vfs name mode fds t ≡ some (fds', t', r)
      → Step
          (record { procs = ps ++ (fds ∷ qs); files = t })
          (record { procs = ps ++ (fds' ∷ qs); files = t' })
  closes :
      (ps qs : List Descriptors) (fds : Descriptors) (t : FileTable) (fd : ℤ)
      → Step
          (record { procs = ps ++ (fds ∷ qs); files = t })
          (record {
            procs = ps ++ ((process_close fd fds t).0 ∷ qs);
            files = (process_close fd fds t).1;
          })
  forks :
      (ps qs : List Descriptors) (fds : Descriptors) (t : FileTable)
      → Step
          (record { procs = ps ++ (fds ∷ qs); files = t })
          (record {
            procs = (duplicate_files fds t).0 ∷ ps ++ (fds ∷ qs);
            files = (duplicate_files fds t).1;
          })

all_refs-append :
    (k : ℕ) (ps : List Descriptors) (fds : Descriptors) (qs : List Descriptors)
    → all_refs k (ps ++ (fds ∷ qs)) ≡ refs k fds + all_refs k (ps ++ qs)
all_refs-append k [] fds qs = refl
all_refs-append k (p ∷ ps) fds qs = omega (arith, all_refs-append k ps fds qs)

AllTables-append :
    (ps : List Descriptors) (fds : Descriptors) (qs : List Descriptors)
    → AllTables (ps ++ (fds ∷ qs)) ↔ (AllUnique fds × AllTables (ps ++ qs))
AllTables-append [] fds qs = (λ h. h, λ h. h)
AllTables-append (p ∷ ps) fds qs =
    let ih = AllTables-append ps fds qs in
    (λ h. ((ih.0 h.1).0, (h.0, (ih.0 h.1).1)), λ h. (h.1.0, ih.1 (h.0, h.1.1)))

-- What the change of one process's descriptors, from `fds` to `fds'`, must do to the file table.
pub record Keeps (fds fds' : Descriptors) (t t' : FileTable) : Type 0 where
  pub balance :
      (k : ℕ)
      → AllUnique fds
      → refs k fds ≤ count_of k t
      → count_of k t' + refs k fds ≡ count_of k t + refs k fds'
  pub live : (k : ℕ) → IsLive k t → IsLive k t'
  pub unique : AllUnique fds → AllUnique fds'

Keeps-IsConsistent :
    (ps qs : List Descriptors) (fds fds' : Descriptors) (t t' : FileTable)
    → Keeps fds fds' t t'
    → IsConsistent (record { procs = ps ++ (fds ∷ qs); files = t })
    → IsConsistent (record { procs = ps ++ (fds' ∷ qs); files = t' })
Keeps-IsConsistent ps qs fds fds' t t' keeps c =
    let (own, others) = (AllTables-append ps fds qs).0 c.unique in
    record {
      counts = λ k.
          let before = all_refs-append k ps fds qs in
          let after = all_refs-append k ps fds' qs in
          let now = c.counts k in
          omega (arith, before, after, now, keeps.balance k own (omega (arith, before, now)));
      live = λ k. keeps.live k (c.live k);
      unique = (AllTables-append ps fds' qs).1 (keeps.unique own, others);
    }

add_descriptor-Keeps :
    (fds fds' : Descriptors) (t t' : FileTable) (r : ℤ) (result : Option (FileTable × ℤ))
    → Opened t result
    → elim result [ none ↦ none | some u ↦ add_descriptor fds u ] ≡ some (fds', t', r)
    → Keeps fds fds' t t'
unfolding add_descriptor
add_descriptor-Keeps fds fds' t t' r _ (opened key d new one) e =
    let (fd, hit, least) = unused_key-total 0 fds in
    let e1 : insert fd key fds ≡ fds' = ground (arith, e, hit) in
    let e2 : insert key d t ≡ t' = ground (arith, e, hit) in
    rw (← e1, ← e2)
      (record {
        balance = λ k u h.
            ground
              (arith, lookup-insert key k d t, refs-insert k fd key fds least.unused, new, one);
        live = λ k h. ground (arith, lookup-insert key k d t, h, one);
        unique = insert-AllUnique fd key fds least.unused;
      })
add_descriptor-Keeps fds fds' t t' r _ (refused u same) e =
    let e1 : fds ≡ fds' = ground arith in
    let e2 : u ≡ t' = ground arith in
    rw (← e1, ← e2)
      (record {
        balance = λ k u h. ground (arith, same k);
        live = λ k h. ground (arith, same k, h);
        unique = λ u. u;
      })

process_close-Keeps :
    (fd : ℤ) (fds : Descriptors) (t : FileTable)
    → Keeps fds (process_close fd fds t).0 t (process_close fd fds t).1
unfolding process_close close_one refs AllUnique
process_close-Keeps (pos fd) fds t = elim (Option-cases (lookup fd fds)) [
  | inl e ↦ rw (e, close_one) (record { balance = λ k u h. refl; live = λ k h. h; unique = λ u. u })
  | inr (key, e) ↦
      rw (e, close_one)
        (record {
          balance =
              λ k u h. omega (arith, refs-erase k fd key fds u e, count_of-close_file k key t);
          live = λ k. close_file-IsLive k key t;
          unique = erase-AllUnique fd fds;
        })
]
process_close-Keeps (negsuc zero) fds t = record {
  balance = λ k u h. omega (arith, count_of-close_each k fds t (pos 0));
  live = λ k. close_each-IsLive k fds t (pos 0);
  unique = λ u. tt;
}
process_close-Keeps (negsuc (suc n)) fds t = record {
  balance = λ k u h. refl;
  live = λ k h. h;
  unique = λ u. u;
}

process_open-Keeps :
    (vfs : Vfs) (name mode : ℕ) (fds fds' : Descriptors) (t t' : FileTable) (r : ℤ)
    → process_open vfs name mode fds t ≡ some (fds', t', r)
    → Keeps fds fds' t t'
unfolding process_open
process_open-Keeps vfs name mode fds fds' t t' r e =
    add_descriptor-Keeps fds fds' t t' r (open_file vfs name mode t)
      (open_file-Opened vfs name mode t) e

forks-IsConsistent :
    (ps qs : List Descriptors) (fds : Descriptors) (t : FileTable)
    → IsConsistent (record { procs = ps ++ (fds ∷ qs); files = t })
    → IsConsistent (record { procs = fds ∷ ps ++ (fds ∷ qs); files = copy_each fds t })
forks-IsConsistent ps qs fds t c = record {
  counts = λ k.
      ground (arith, c.counts k, c.live k, all_refs-append k ps fds qs, count_of-copy_each k fds t);
  live = λ k. copy_each-IsLive k fds t (c.live k);
  unique = (((AllTables-append ps fds qs).0 c.unique).0, c.unique);
}

-- Every call of `open_file`, `close_file`, `fork_duplicate` or `exec_duplicate` by a process, among
-- any others, keeps the tables consistent: the count of each file description stays the number of
-- descriptors of all processes that hold its key, and is never 0.
pub Step-IsConsistent : {s s' : System} → Step s s' → IsConsistent s → IsConsistent s'
unfolding duplicate_files
Step-IsConsistent (opens ps qs fds fds' t t' r vfs name mode e) c =
    Keeps-IsConsistent ps qs fds fds' t t' (process_open-Keeps vfs name mode fds fds' t t' r e) c
Step-IsConsistent (closes ps qs fds t fd) c =
    Keeps-IsConsistent ps qs fds _ t _ (process_close-Keeps fd fds t) c
Step-IsConsistent (forks ps qs fds t) c = forks-IsConsistent ps qs fds t c

-- The states that the calls of the processes lead to.
pub data Reach (s : System) : System → Type 0 where
  here : Reach s s
  next : {u v : System} → Reach s u → Step u v → Reach s v

pub Reach-IsConsistent : {s u : System} → IsConsistent s → Reach s u → IsConsistent u
Reach-IsConsistent c here = c
Reach-IsConsistent c (next r step) = Step-IsConsistent step (Reach-IsConsistent c r)

-- The start: processes with no open files.
abbrev pub idle : ℕ → List Descriptors
idle zero = []
idle (suc n) = [] ∷ idle n

abbrev pub start_system : ℕ → System
start_system n = record { procs = idle n; files = [] }

all_refs-idle : (n k : ℕ) → all_refs k (idle n) ≡ 0
unfolding refs
all_refs-idle zero k = refl
all_refs-idle (suc n) k = omega (arith, all_refs-idle n k)

AllTables-idle : (n : ℕ) → AllTables (idle n)
unfolding AllUnique
AllTables-idle zero = tt
AllTables-idle (suc n) = (tt, AllTables-idle n)

pub start-IsConsistent : (n : ℕ) → IsConsistent (start_system n)
unfolding lookup
start-IsConsistent n = record {
  counts = λ k. omega (arith, all_refs-idle n k);
  live = λ k h. absurd (ground arith);
  unique = AllTables-idle n;
}

-- In every state that processes with no open files reach by opening, closing and forking, there is a
-- description for a key exactly if some descriptor of some process holds the key: no descriptor is
-- left dangling, and no description outlives its last descriptor.
pub Reach-has_iff :
    (n k : ℕ) {s : System}
    → Reach (start_system n) s
    → (has k s.files ≡ true) ↔ (1 ≤ all_refs k s.procs)
Reach-has_iff n k {s} r =
    let c = Reach-IsConsistent (start-IsConsistent n) r in
    (λ h. omega (arith, c.counts k, c.live k h), λ h. ground (arith, c.counts k))
