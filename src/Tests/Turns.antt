-- ===== src/Tests/Turns.antt =====
-- The scheduler at a concrete table.
use stable_genius.Common.{◌≤◌, ◌<◌, ◌≡◌, refl, some, [], ◌∷◌, arith}
use stable_genius.Common.Maps.{lookup, insert}
use stable_genius.Procs.{Process, ProcTable, active, runnable, max_pid}
use stable_genius.Sched.{after, upto, first_ready, choose, swap_out, swap_in, switch_to, next_proc}
use stable_genius.Sched.Order.{ready, behind}
use stable_genius.Sched.Active
use stable_genius.Sched.Active.{OneActive, Turned}
use stable_genius.Sched.Fair
use stable_genius.Sched.Fair.{PassedOver, begin, turn}

abbrev waiting : Process
waiting = record { stat = runnable; ret_val = 0; parent_pid = 1; child_pids = []; file_desc = [] }

abbrev running : Process
running = record waiting { stat = active }

abbrev busy : ProcTable
busy = record { tab = (1, running) ∷ (2, waiting) ∷ (3, waiting) ∷ []; last_pid = 3 }

abbrev turned : ProcTable
turned = record { tab = (1, waiting) ∷ (2, running) ∷ (3, waiting) ∷ []; last_pid = 3 }

busy-OneActive : OneActive 1 busy
unfolding lookup
busy-OneActive = record {
  sorted = omega arith;
  pids = λ q h. ground arith;
  here = refl;
  only = λ x p at now. ground arith;
}

turns : next_proc 1 busy ≡ some (turned, 2)
unfolding next_proc choose first_ready after upto switch_to swap_out swap_in lookup insert
turns = refl

next_proc-Turned_example : Turned 1 busy 2 turned
next_proc-Turned_example = Active.next_proc-Turned 1 2 busy turned busy-OneActive turns

-- The third process is passed over once.
passed : PassedOver 3 1 1 2
unfolding ready lookup
passed = turn 0 1 2 2 busy turned busy-OneActive refl turns refl (begin 2)

PassedOver-lt_example : (1 < behind 1 3) × (behind 1 3 ≤ max_pid)
PassedOver-lt_example = Fair.PassedOver-lt 3 1 1 2 (omega arith) (omega arith) passed
