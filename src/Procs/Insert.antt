-- ===== src/Procs/Insert.antt =====
-- `ProcTable::insert` hands out fresh PIDs, and finds one whenever there is one.
use stable_genius.Common.{
  ℕ, ◌≤◌, ◌<◌, ◌≡◌, ◌≢◌, refl, true, false, Option, none, some, ◌==◌, if◌then◌else◌, arith,
  Bool-cases, inl, inr,
}
use stable_genius.Common.Maps.{lookup, has, insert, lookup-insert, lookup-erase}
use stable_genius.Procs.{
  Process, ProcTable, max_pid, Search, found, full, out_of_fuel, insert_process, finish_insert,
  IsValid, set_process, erase_process,
}
use stable_genius.Procs.Pids.{IsPid, Ends, step_pid, search_pid-Ends}

-- What a call of `insert` comes to: a fresh PID and an entry for it, or 0 and an unchanged table in
-- which every PID is taken.
pub data Inserted (p : Process) (t : ProcTable) : Option (ProcTable × ℕ) → Type 0 where
  fresh :
      (q : ℕ)
      → IsPid q
      → has q t.tab ≡ false
      → Inserted p t (some (record { tab = insert q p t.tab; last_pid = q }, q))
  no_room : ((x : ℕ) → IsPid x → has x t.tab ≡ true) → Inserted p t (some (t, 0))

finish_insert-Inserted :
    (p : Process) (t : ProcTable) (r : Search)
    → IsValid t
    → Ends t.tab t.last_pid (step_pid t.last_pid) r
    → Inserted p t (finish_insert p t r)
unfolding finish_insert
finish_insert-Inserted p t (found q) v e = fresh q e.0 e.1
finish_insert-Inserted p t (full q) v e =
    rw e.0 (no_room λ x at. e.1 x at (ground (arith, v.last_low, v.last_high)))
finish_insert-Inserted p t out_of_fuel v e = absurd e

-- From a valid table `insert` ends, and it does one of those two things.
pub insert_process-Inserted :
    (p : Process) (t : ProcTable) → IsValid t → Inserted p t (insert_process p t)
unfolding insert_process
insert_process-Inserted p t v = finish_insert-Inserted p t _ v (
    search_pid-Ends max_pid t.tab t.last_pid (step_pid t.last_pid) (v.last_low, v.last_high)
      (ground (arith, v.last_low, v.last_high)) (ground (arith, v.last_low, v.last_high)))

insert_process-inv :
    {p : Process} {t : ProcTable} {r : Option (ProcTable × ℕ)}
    → Inserted p t r
    → IsValid t
    → (g : ProcTable) × (q : ℕ) × (r ≡ some (g, q)) × IsValid g
insert_process-inv {p} {t} (fresh q at free) v = (
  record { tab = insert q p t.tab; last_pid = q },
  q,
  refl,
  record {
    last_low = at.0;
    last_high = at.1;
    keys = λ x h. ground (arith, lookup-insert q x p t.tab, v.keys x, at);
  },
)
insert_process-inv {t} (no_room taken) v = (t, 0, refl, v)

-- From a valid table `ProcTable::insert` ends, and leaves a valid table.
insert_process-IsValid :
    (p : Process) (t : ProcTable)
    → IsValid t
    → (g : ProcTable) × (q : ℕ) × (insert_process p t ≡ some (g, q)) × IsValid g
insert_process-IsValid p t v = insert_process-inv (insert_process-Inserted p t v) v

eq_of_Inserted :
    {p : Process} {t : ProcTable} {r : Option (ProcTable × ℕ)} {g : ProcTable} {q : ℕ}
    → Inserted p t r
    → r ≡ some (g, q)
    → q ≢ 0
    → (q < max_pid)
      × (lookup q t.tab ≡ none)
      × ((x : ℕ) → lookup x g.tab ≡ (if q == x then some p else lookup x t.tab))
eq_of_Inserted {p} {t} {g} {q} (fresh k at free) e ne =
    let same : k ≡ q = ground arith in
    (ground (arith, at), ground arith, λ x. ground (arith, lookup-insert k x p t.tab))
eq_of_Inserted (no_room taken) e ne = absurd (ground arith)

-- A PID other than 0 that `ProcTable::insert` returns on a valid table was not in use. It is below
-- 32768, it names the new process afterwards, and every other entry is as before.
pub insert_process-fresh :
    (p : Process) (t g : ProcTable) (q : ℕ)
    → IsValid t
    → insert_process p t ≡ some (g, q)
    → q ≢ 0
    → (q < max_pid)
      × (lookup q t.tab ≡ none)
      × ((x : ℕ) → lookup x g.tab ≡ (if q == x then some p else lookup x t.tab))
insert_process-fresh p t g q v e ne = eq_of_Inserted (insert_process-Inserted p t v) e ne

some_of_Inserted :
    {p : Process} {t : ProcTable} {r : Option (ProcTable × ℕ)} (x : ℕ)
    → Inserted p t r
    → IsPid x
    → has x t.tab ≡ false
    → (g : ProcTable) × (q : ℕ) × (r ≡ some (g, q)) × (q ≢ 0)
some_of_Inserted {p} {t} x (fresh k at free) is_pid unused =
    (record { tab = insert k p t.tab; last_pid = k }, k, refl, omega (arith, at.0))
some_of_Inserted x (no_room taken) is_pid unused = absurd (ground (arith, taken x is_pid))

-- If some PID from 1 to 32767 is not in use, `ProcTable::insert` on a valid table succeeds: it ends,
-- with a PID other than 0.
insert_process-succeeds :
    (p : Process) (t : ProcTable) (x : ℕ)
    → IsValid t
    → 1 ≤ x
    → x < max_pid
    → has x t.tab ≡ false
    → (g : ProcTable) × (q : ℕ) × (insert_process p t ≡ some (g, q)) × (q ≢ 0)
insert_process-succeeds p t x v low high unused =
    some_of_Inserted x (insert_process-Inserted p t v) (low, high) unused

-- `erase` keeps a table valid.
pub erase_process-IsValid : (pid : ℕ) (t : ProcTable) → IsValid t → IsValid (erase_process pid t)
unfolding erase_process
erase_process-IsValid pid t v = elim (Bool-cases (has pid t.tab)) [
  | inl there ↦ rw there (record {
    last_low = v.last_low;
    last_high = v.last_high;
    keys = λ q h. ground (arith, lookup-erase pid q t.tab, v.keys q);
  })
  | inr gone ↦ rw gone v
]

-- `set_process` keeps a table valid.
pub set_process-IsValid :
    (pid : ℕ) (p : Process) (t : ProcTable) → IsValid t → IsValid (set_process pid p t).1
unfolding set_process
set_process-IsValid pid p t v = elim (Bool-cases (has pid t.tab)) [
  | inl there ↦ rw there (record {
    last_low = v.last_low;
    last_high = v.last_high;
    keys = λ q h. ground (arith, lookup-insert pid q p t.tab, v.keys q, v.keys pid);
  })
  | inr gone ↦ rw gone v
]
