-- ===== src/Sched.antt =====
-- kernel/cpp/Scheduler.cpp, `class RoundRobin`, with `swap_in` and `swap_out` of
-- kernel/cpp/ProcTable.cpp. The saved registers are not modelled, and the switch itself is the new
-- status that `Process::resume` of kernel/cpp/Process.cpp sets.
pub mod Order
pub mod Active
pub mod Fair
use stable_genius.Common.{
  ℕ, ◌+◌, ◌-◌, Bool, true, false, ◌||◌, Option, none, some, [], ◌∷◌, ◌++◌, ◌==◌, ltb, if◌then◌else◌,
}
use stable_genius.Common.Maps.{Map, lookup, insert}
use stable_genius.Procs.{Process, ProcStatus, ProcTable, max_pid, active, runnable}

abbrev pub is_active : ProcStatus → Bool
is_active active = true
is_active _ = false

abbrev pub is_runnable : ProcStatus → Bool
is_runnable runnable = true
is_runnable _ = false

-- `klib::map` behind and up to the entry of a key, in the order of iteration.
unfoldable pub after : ℕ → Map Process → Map Process
after pid [] = []
after pid ((k, p) ∷ m) = if k == pid then m else after pid m

unfoldable pub upto : ℕ → Map Process → Map Process
upto pid [] = []
upto pid ((k, p) ∷ m) = let rest = upto pid m in if k == pid then (k, p) ∷ [] else (k, p) ∷ rest

unfoldable pub first_ready : Map Process → Option (ℕ × Process)
first_ready [] = none
first_ready ((k, p) ∷ m) =
    let rest = first_ready m in if is_runnable p.stat || is_active p.stat then some (k, p) else rest

-- The loop of `next_proc`: it begins behind the current process and goes round. Once it has gone
-- round and found no process it goes on for ever, as `none` says.
unfoldable pub choose : ℕ → Map Process → Option (ℕ × Process)
choose current_proc tab = first_ready (after current_proc tab ++ upto current_proc tab)

-- `swap_out`; `none` stands for a read through a null pointer.
unfoldable pub swap_out : ℕ → ProcTable → Option ProcTable
swap_out pid t = elim (lookup pid t.tab) [
  | none ↦ none
  | some p ↦ some (
      if is_active p.stat
      then record t { tab = insert pid (record p { stat = runnable }) t.tab }
      else t)
]

-- `swap_in`, to the switch; `none` stands for the result `false`.
unfoldable pub swap_in : ℕ → ProcTable → Option ProcTable
swap_in pid t = elim (lookup pid t.tab) [
  | none ↦ none
  | some p ↦
      if is_runnable p.stat || is_active p.stat
      then some (record t { tab = insert pid (record p { stat = active }) t.tab })
      else none
]

-- What `next_proc` does at the chosen process; a failure of `swap_in` is a panic.
unfoldable pub switch_to : ℕ → Option (ℕ × Process) → ProcTable → Option (ProcTable × ℕ)
switch_to current none t = none
switch_to current (some (pid, p)) t =
    if is_active p.stat then some (t, current) else elim (swap_out current t) [
      | none ↦ none
      | some u ↦ elim (swap_in pid u) [ none ↦ none | some v ↦ some (v, pid) ]
    ]

-- `next_proc`: the table and the current process.
unfoldable pub next_proc : ℕ → ProcTable → Option (ProcTable × ℕ)
next_proc current_proc t = switch_to current_proc (choose current_proc t.tab) t
