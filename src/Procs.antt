-- ===== src/Procs.antt =====
-- kernel/cpp/ProcTable.cpp and kernel/include/ProcTable.h, `class ProcTable`, with the fields of
-- kernel/include/Process.h that the process table, the scheduler and the signal manager use. The
-- table holds its processes by value: a write through a `Process*` is a write of the entry.
pub mod Pids
pub mod Insert
use stable_genius.Common.{
  ℕ, zero, suc, ◌+◌, ◌-◌, ◌≤◌, ◌<◌, ◌≡◌, Bool, true, false, Option, none, some, List, [], ◌==◌,
  if◌then◌else◌,
}
use stable_genius.Common.Maps.{Map, lookup, insert, erase, has}

pub data ProcStatus : Type 0 where
  active runnable sleeping zombie invalid : ProcStatus

pub record Process : Type 0 where
  pub stat : ProcStatus
  pub ret_val : ℕ
  pub parent_pid : ℕ
  pub child_pids : List ℕ
  pub file_desc : Map ℕ

pub record ProcTable : Type 0 where
  pub tab : Map Process
  pub last_pid : ℕ

abbrev pub init_pid : ℕ
init_pid = 1

abbrev pub max_pid : ℕ
max_pid = 32768

-- The constructor, at a null pointer and at a process.
unfoldable pub proc_table : Option Process → ProcTable
proc_table none = record { tab = []; last_pid = init_pid }
proc_table (some p) = record { tab = insert init_pid p []; last_pid = init_pid }

unfoldable pub get_process : ℕ → ProcTable → Option Process
get_process pid t = lookup pid t.tab

pub set_process : ℕ → Process → ProcTable → Bool × ProcTable
set_process pid p t =
    if has pid t.tab then (true, record t { tab = insert pid p t.tab }) else (false, t)

pub erase_process : ℕ → ProcTable → ProcTable
erase_process pid t = if has pid t.tab then record t { tab = erase pid t.tab } else t

-- How the loop of `ProcTable::insert` ends, with `last_pid` at `pid`.
pub data Search : Type 0 where
  found : ℕ → Search
  full : ℕ → Search
  out_of_fuel : Search

-- `for (; tab.count(last_pid); ++last_pid) { ... }` with `last_pid` at `pid`, on fuel.
unfoldable pub search_pid : (fuel : ℕ) → Map Process → (start pid : ℕ) → Search
search_pid zero tab start pid = out_of_fuel
search_pid (suc n) tab start pid =
    let rest = search_pid n tab start ((if pid == max_pid - 1 then 0 else pid) + 1) in
    if has pid tab then (if pid == start then full pid else rest) else found pid

-- The end of `ProcTable::insert`; the result `none` stands for a loop that does not end.
unfoldable pub finish_insert : Process → ProcTable → Search → Option (ProcTable × ℕ)
finish_insert p t (found pid) = some (record { tab = insert pid p t.tab; last_pid = pid }, pid)
finish_insert p t (full pid) = some (record t { last_pid = pid }, 0)
finish_insert p t out_of_fuel = none

-- `ProcTable::insert`, whose loop is given a round for each PID.
unfoldable pub insert_process : Process → ProcTable → Option (ProcTable × ℕ)
insert_process p t =
    let first = (if t.last_pid == max_pid - 1 then 0 else t.last_pid) + 1 in
    finish_insert p t (search_pid max_pid t.tab t.last_pid first)

-- What every operation keeps: the last PID, and all keys, are PIDs.
pub record IsValid (t : ProcTable) : Type 0 where
  pub last_low : 1 ≤ t.last_pid
  pub last_high : t.last_pid < max_pid
  pub keys : (q : ℕ) → has q t.tab ≡ true → (1 ≤ q) × (q < max_pid)
