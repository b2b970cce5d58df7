-- ===== src/Signals.antt =====
-- kernel/cpp/SignalManager.cpp and kernel/include/SignalManager.h: the processes that sleep until a
-- child or a file gives notice. A call that yields is cut there: the part before it ends `asleep`,
-- and the part behind it runs when the process has time again. The state holds what the manager
-- reaches: the process and the file table, the PID that the scheduler gave time last, the flag
-- `switch_blocked_for_notify`, the integers in the user memory of each process, and the `pollfd`s
-- by their address. A pointer is its address, 0 for `nullptr`.
pub mod Status
pub mod Wait
pub mod Poll
use stable_genius.Common.{
  ℕ, ◌+◌, Bool, true, false, ◌&&◌, ◌||◌, Option, none, some, List, [], ◌∷◌, ◌==◌, if◌then◌else◌,
}
use stable_genius.Common.Maps.{Map, lookup, insert}
use stable_genius.Common.Int.{ℤ}
use stable_genius.Files.{FileTable}
use stable_genius.Procs.{Process, ProcStatus, ProcTable, runnable, sleeping, get_process}

pub record PollFd : Type 0 where
  pub fd : ℤ
  pub events : ℕ
  pub revents : ℕ

pub record PollEvent : Type 0 where
  pub req : ℕ
  pub time_left : ℤ
  pub pid : ℕ

pub record WaitRequest : Type 0 where
  pub pid : ℕ
  pub wait_pids : List ℕ
  pub wstatus : ℕ
  pub local_wstatus : ℕ
  pub options : ℕ

pub record WaitEvent : Type 0 where
  pub pid : ℕ
  pub ev : ℕ

pub record SignalManager : Type 0 where
  pub pt : ProcTable
  pub file_table : FileTable
  pub current_proc : ℕ
  pub switch_blocked : Bool
  pub user : ℕ → ℕ → ℕ
  pub fds : ℕ → PollFd
  pub pending_polls : List PollEvent
  pub pending_waits : List WaitRequest
  pub happened_waits : List WaitEvent

-- How a call ends: it returns, it sleeps at the yield, or it reads through a null pointer.
pub data Outcome : Type 0 where
  returned : ℤ → SignalManager → Outcome
  asleep : SignalManager → Outcome
  fault : Outcome

-- The state that a call leaves, at a fault the state before it.
abbrev pub left_by : SignalManager → Outcome → SignalManager
left_by s (returned n t) = t
left_by s (asleep t) = t
left_by s fault = s

-- `klib::find(pids.begin(), pids.end(), pid) != pids.end()`
unfoldable pub member : ℕ → List ℕ → Bool
member pid [] = false
member pid (q ∷ qs) = q == pid || member pid qs

abbrev pub is_sleeping : ProcStatus → Bool
is_sleeping sleeping = true
is_sleeping _ = false

unfoldable pub set_status : ℕ → ProcStatus → ProcTable → ProcTable
set_status pid st t = elim (lookup pid t.tab) [
  | none ↦ t
  | some p ↦ record t { tab = insert pid (record p { stat = st }) t.tab }
]

-- `if (proc->get_status() == ProcStatus::sleeping) proc->set_status(ProcStatus::runnable);`
unfoldable pub wake : ℕ → ProcTable → ProcTable
wake pid t = elim (lookup pid t.tab) [
  | none ↦ t
  | some p ↦
      if is_sleeping p.stat
      then record t { tab = insert pid (record p { stat = runnable }) t.tab }
      else t
]

-- The loops of `purge_process`, one for each list.
unfoldable pub purge_polls : ℕ → List PollEvent → List PollEvent
purge_polls pid [] = []
purge_polls pid (e ∷ es) = if e.pid == pid then purge_polls pid es else e ∷ purge_polls pid es

pub purge_events : ℕ → List WaitEvent → List WaitEvent
purge_events pid [] = []
purge_events pid (e ∷ es) = if e.pid == pid then purge_events pid es else e ∷ purge_events pid es

pub purge_waits : ℕ → List WaitRequest → List WaitRequest
purge_waits pid [] = []
purge_waits pid (r ∷ rs) = if r.pid == pid then purge_waits pid rs else r ∷ purge_waits pid rs

pub purge_process : ℕ → SignalManager → SignalManager
purge_process pid s = record s {
  pending_polls = purge_polls pid s.pending_polls;
  pending_waits = purge_waits pid s.pending_waits;
  happened_waits = purge_events pid s.happened_waits;
}
