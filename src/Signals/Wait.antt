-- ===== src/Signals/Wait.antt =====
-- `waitpid` and `notify_wait` of kernel/cpp/SignalManager.cpp, and `syscalls::wait` of
-- kernel/cpp/Syscall.cpp: a process sleeps until one of its children gives notice.
pub mod NoMissed
pub mod Place
pub mod Meanwhile
pub mod Answer
use stable_genius.Common.{
  ℕ, zero, suc, ◌+◌, ◌-◌, ◌*◌, ◌≤◌, Bool, true, false, Option, none, some, List, [], ◌∷◌, ◌++◌,
  ◌==◌, if◌then◌else◌, not, leb, ◌&&◌, ◌%◌, ◌^◌,
}
use stable_genius.Common.Maps.{lookup, has}
use stable_genius.Common.Int.{ℤ, pos, negsuc, minus_one}
use stable_genius.Procs.{
  Process, ProcStatus, ProcTable, sleeping, zombie, active, runnable, invalid, erase_process,
}
use stable_genius.Signals.{
  SignalManager, WaitRequest, WaitEvent, Outcome, returned, asleep, fault, member, set_status, wake,
  purge_process,
}
use stable_genius.Files.{process_close}

-- The PIDs that a call of `waitpid(pid)` waits for.
unfoldable pub waited : ℤ → List ℕ → List ℕ
waited (negsuc zero) children = children
waited (negsuc (suc n)) children = []
waited (pos zero) children = []
waited (pos (suc n)) children = if member (suc n) children then suc n ∷ [] else []

-- The first event that has happened of one of the PIDs, and the events without it.
unfoldable pub take_event : List ℕ → List WaitEvent → Option (ℕ × List WaitEvent)
take_event pids [] = none
take_event pids (e ∷ es) =
    if member e.pid pids
    then some (e.pid, es)
    else elim (take_event pids es) [ none ↦ none | some (q, rest) ↦ some (q, e ∷ rest) ]

-- `if (wstatus != nullptr) *wstatus = status;` in the memory of the process.
pub store_status : (pid wstatus status : ℕ) → SignalManager → SignalManager
store_status pid wstatus status s =
    if wstatus == 0
    then s
    else record s { user = λ p a. if p == pid && a == wstatus then status else s.user p a }

-- `waitpid` at an event that has happened: the result is the child's PID. The child is read only if
-- its status is asked for.
pub take_child : (pid wstatus q : ℕ) → Option Process → SignalManager → Outcome
take_child pid wstatus q none s = if wstatus == 0 then returned (pos q) s else fault
take_child pid wstatus q (some child) s =
    returned (pos q) (store_status pid wstatus child.ret_val s)

-- `waitpid` from the loop over the events on, to its return or to the yield, which resets the flag.
unfoldable pub wait_or_take : WaitRequest → Option (ℕ × List WaitEvent) → SignalManager → Outcome
wait_or_take wr (some (q, events)) s =
    take_child wr.pid wr.wstatus q (lookup q s.pt.tab)
      (record s { happened_waits = events; switch_blocked = false })
wait_or_take wr none s = asleep (record s {
  pending_waits = s.pending_waits ++ wr ∷ [];
  pt = set_status wr.pid sleeping s.pt;
  switch_blocked = false;
})

abbrev pub wait_request : (pids : List ℕ) → (wstatus options : ℕ) → SignalManager → WaitRequest
wait_request pids wstatus options s = record {
  pid = s.current_proc;
  wait_pids = pids;
  wstatus = wstatus;
  local_wstatus = 0;
  options = options;
}

unfoldable pub wait_for : List ℕ → (wstatus options : ℕ) → SignalManager → Outcome
wait_for [] wstatus options s = returned minus_one s
wait_for (c ∷ cs) wstatus options s =
    wait_or_take (wait_request (c ∷ cs) wstatus options s) (take_event (c ∷ cs) s.happened_waits) s

unfoldable pub wait_as : Option Process → ℤ → (wstatus options : ℕ) → SignalManager → Outcome
wait_as none pid wstatus options s = returned minus_one s
wait_as (some p) pid wstatus options s = wait_for (waited pid p.child_pids) wstatus options s

-- `waitpid`, to its return or to the yield
unfoldable pub waitpid : ℤ → (wstatus options : ℕ) → SignalManager → Outcome
waitpid pid wstatus options s = wait_as (lookup s.current_proc s.pt.tab) pid wstatus options s

-- The first request of a process, and the requests without it.
unfoldable pub take_request : ℕ → List WaitRequest → Option (WaitRequest × List WaitRequest)
take_request pid [] = none
take_request pid (r ∷ rs) =
    if r.pid == pid
    then some (r, rs)
    else elim (take_request pid rs) [ none ↦ none | some (q, rest) ↦ some (q, r ∷ rest) ]

-- The end of `waitpid`; `front()` of an empty list is a fault.
unfoldable pub conclude : Option (WaitRequest × List WaitRequest) → SignalManager → Outcome
conclude none s = returned minus_one s
conclude (some (r, rest)) s = elim r.wait_pids [
  | [] ↦ fault
  | q ∷ qs ↦
      returned (pos q)
        (store_status s.current_proc r.wstatus r.local_wstatus (record s { pending_waits = rest }))
]

-- `waitpid` from the yield on, when its process has time again
unfoldable pub waitpid_resume : SignalManager → Outcome
waitpid_resume s = conclude (take_request s.current_proc s.pending_waits) s

-- The loop of `notify_wait`: the first request that waits for `pid` is left with that PID and the
-- status. The result has the PID of the process that waits.
unfoldable pub answer : (pid status : ℕ) → List WaitRequest → Option (ℕ × List WaitRequest)
answer pid status [] = none
answer pid status (r ∷ rs) =
    if member pid r.wait_pids
    then some (r.pid, record r { wait_pids = pid ∷ []; local_wstatus = status } ∷ rs)
    else elim (answer pid status rs) [ none ↦ none | some (q, rest) ↦ some (q, r ∷ rest) ]

abbrev pub status_of : Option Process → ℕ
status_of none = 0
status_of (some p) = p.ret_val

-- `notify_wait` with the active process and the process that waits; `none` stands for a read through
-- a null pointer.
unfoldable pub notify_with :
    ℕ → Option Process → Option (ℕ × List WaitRequest) → SignalManager → Option SignalManager
notify_with ev p none s =
    let event : WaitEvent = record { pid = s.current_proc; ev = ev } in
    some (record s { happened_waits = s.happened_waits ++ event ∷ []; switch_blocked = false })
notify_with ev none (some r) s = none
notify_with ev (some p) (some (w, requests)) s =
    if has w s.pt.tab
    then some (record s { pending_waits = requests; pt = wake w s.pt; switch_blocked = false })
    else none

unfoldable pub notify_wait : ℕ → SignalManager → Option SignalManager
notify_wait ev s =
    let p = lookup s.current_proc s.pt.tab in
    notify_with ev p (answer s.current_proc (status_of p) s.pending_waits) s

-- `syscalls::wait` before and behind `waitpid`: the address is one of user space or null, below the
-- given base of the kernel, and the
-- parent erases the child that it has waited for, if it is a zombie.
pub wait : (kernel_virtual_base : ℕ) → ℤ → (wstatus options : ℕ) → SignalManager → Outcome
wait kernel_virtual_base pid wstatus options s =
    if not (wstatus == 0) && not (leb ((wstatus + 4) % 2 ^ 32) kernel_virtual_base)
    then returned minus_one s
    else waitpid pid wstatus options s

abbrev pub is_zombie : ProcStatus → Bool
is_zombie zombie = true
is_zombie _ = false

-- `delete` of a process that is in the table, whose destructor purges its signals and closes its
-- files, and the end of its entry.
pub destroy : ℕ → Process → SignalManager → SignalManager
destroy pid child s = record (purge_process pid s) {
  file_table = (process_close minus_one child.file_desc s.file_table).1;
  pt = erase_process pid s.pt;
}

pub reap : ℤ → SignalManager → SignalManager
reap (negsuc n) s = s
reap (pos q) s = elim (lookup q s.pt.tab) [
  | none ↦ s
  | some child ↦ if is_zombie child.stat then destroy q child s else s
]
