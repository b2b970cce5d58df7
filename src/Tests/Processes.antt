-- ===== src/Tests/Processes.antt =====
-- The process table and the open files at concrete states.
use stable_genius.Common.{
  ℕ, ◌≤◌, ◌<◌, ◌≡◌, ◌↔◌, refl, true, none, some, [], ◌∷◌, arith, first_from, if◌then◌else◌, ◌==◌,
}
use stable_genius.Common.Maps.{lookup, insert, has}
use stable_genius.Common.Int.{pos}
use stable_genius.Procs.{
  Process, ProcTable, sleeping, IsValid, insert_process, finish_insert, search_pid, max_pid,
}
use stable_genius.Procs.Insert
use stable_genius.Files.{
  Vfs, FileTable, Descriptors, process_open, open_file, add_descriptor, unused_key,
  file_description,
}
use stable_genius.Files.Shared
use stable_genius.Files.Shared.{
  System, IsConsistent, start_system, start-IsConsistent, Step, opens, closes, Reach, here, next,
  all_refs,
}

abbrev idle_process : Process
idle_process = record {
  stat = sleeping;
  ret_val = 0;
  parent_pid = 1;
  child_pids = [];
  file_desc = [];
}

-- Only init runs.
abbrev only_init : ProcTable
only_init = record { tab = (1, idle_process) ∷ []; last_pid = 1 }

only_init-IsValid : IsValid only_init
unfolding lookup
only_init-IsValid = record {
  last_low = omega arith;
  last_high = omega arith;
  keys = λ q h. ground arith;
}

abbrev two_processes : ProcTable
two_processes = record { tab = (1, idle_process) ∷ (2, idle_process) ∷ []; last_pid = 2 }

second_process : insert_process idle_process only_init ≡ some (two_processes, 2)
unfolding insert_process finish_insert search_pid insert lookup
second_process = refl

insert_process-fresh_example :
    (2 < max_pid)
    × (lookup 2 only_init.tab ≡ none)
    × ((x : ℕ)
        → lookup x two_processes.tab
          ≡ (if 2 == x then some idle_process else lookup x only_init.tab))
insert_process-fresh_example =
    Insert.insert_process-fresh idle_process only_init two_processes 2 only_init-IsValid
      second_process (omega arith)

-- A file system in which file 7 opens and no other, with no devices.
abbrev vfs : Vfs
vfs = record { device = λ n. none; opens = λ n mode. n == 7 }

abbrev first_fds : Descriptors
first_fds = (0, 1) ∷ []

abbrev first_files : FileTable
first_files = (1, record { name = 7; count = 1; dev = none }) ∷ []

first_open : process_open vfs 7 0 [] [] ≡ some (first_fds, first_files, pos 0)
unfolding process_open open_file unused_key first_from lookup insert file_description add_descriptor
first_open = refl

abbrev first_system : System
first_system = record { procs = first_fds ∷ []; files = first_files }

first-Step : Step (start_system 1) first_system
first-Step = opens [] [] [] first_fds [] first_files (pos 0) vfs 7 0 first_open

Step-IsConsistent_example : IsConsistent first_system
Step-IsConsistent_example = Shared.Step-IsConsistent first-Step (start-IsConsistent 1)

Reach-has_iff_example : (has 1 first_system.files ≡ true) ↔ (1 ≤ all_refs 1 first_system.procs)
Reach-has_iff_example = Shared.Reach-has_iff 1 1 (next here first-Step)
