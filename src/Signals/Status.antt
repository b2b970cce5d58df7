-- ===== src/Signals/Status.antt =====
-- How `set_status` and `wake` change the process table.
use stable_genius.Common.{ℕ, ◌≡◌, none, some, ◌==◌, if◌then◌else◌, arith, Option-cases, inl, inr}
use stable_genius.Common.Maps.{lookup, lookup-insert}
use stable_genius.Procs.{ProcTable, Process, ProcStatus, runnable}
use stable_genius.Signals.{set_status, wake, is_sleeping}

module _ (pid : ℕ) (t : ProcTable) (p : Process) (here : lookup pid t.tab ≡ some p) where
  pub lookup-set_status :
      (st : ProcStatus) (x : ℕ)
      → lookup x (set_status pid st t).tab
        ≡ (if pid == x then some (record p { stat = st }) else lookup x t.tab)
  unfolding set_status
  lookup-set_status st x = ground (arith, here, lookup-insert pid x (record p { stat = st }) t.tab)

  pub lookup-wake :
      (x : ℕ)
      → lookup x (wake pid t).tab ≡ (
          if pid == x
          then some (if is_sleeping p.stat then record p { stat = runnable } else p)
          else lookup x t.tab)
  unfolding wake
  lookup-wake x =
      let written = lookup-insert pid x (record p { stat = runnable }) t.tab in
      ground (arith, written, here)

-- `wake` at any process, whether it exists or not
pub lookup-wake_any :
    (pid : ℕ) (t : ProcTable) (x : ℕ)
    → lookup x (wake pid t).tab ≡ (
        if pid == x
        then elim (lookup x t.tab) [
          | none ↦ none
          | some p ↦ some (if is_sleeping p.stat then record p { stat = runnable } else p)
        ]
        else lookup x t.tab)
lookup-wake_any pid t x = elim (Option-cases (lookup pid t.tab)) [
  | inl gone ↦ unfold wake in ground (arith, gone)
  | inr (p, here) ↦ ground (arith, here, lookup-wake pid t p here x)
]
