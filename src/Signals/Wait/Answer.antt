-- ===== src/Signals/Wait/Answer.antt =====
-- A process that sleeps in `waitpid` is woken by the notice of its child, and returns its PID.
use stable_genius.Common.{
  ℕ, ◌≡◌, ◌≢◌, refl, true, false, Option, none, some, List, [], ◌∷◌, ◌++◌, ◌∙◌, ap, sym, arith,
}
use stable_genius.Common.Maps.{lookup}
use stable_genius.Common.Int.{ℤ, pos}
use stable_genius.Procs.{Process, runnable, sleeping}
use stable_genius.Signals.{
  SignalManager, WaitRequest, WaitEvent, returned, asleep, member, set_status, wake,
}
use stable_genius.Signals.Status.{lookup-wake}
use stable_genius.Signals.Wait.{
  waited, wait_request, wait_or_take, wait_as, wait_for, waitpid, take_child, take_request,
  conclude, waitpid_resume, notify_wait, notify_with, store_status,
}
use stable_genius.Signals.Wait.NoMissed.{awaited}
use stable_genius.Signals.Wait.Place.{
  requested, Placed, last-Placed, answered, answer-own, take_request-own,
}
use stable_genius.Signals.Wait.Meanwhile.{Meanwhile, Meanwhile-Placed}

-- The state in which `waitpid` falls asleep: the request is the last one.
abbrev with_request : WaitRequest → SignalManager → SignalManager
with_request wr s = record s {
  pending_waits = s.pending_waits ++ wr ∷ [];
  pt = set_status wr.pid sleeping s.pt;
  switch_blocked = false;
}

take_child-ne-asleep :
    (pid wstatus q : ℕ) (c : Option Process) (s t : SignalManager)
    → take_child pid wstatus q c s ≢ asleep t
unfolding take_child
take_child-ne-asleep pid wstatus q none s t e = ground (arith, e)
take_child-ne-asleep pid wstatus q (some c) s t e = cc

wait_or_take-asleep :
    (wr : WaitRequest) (o : Option (ℕ × List WaitEvent)) (s t : SignalManager)
    → wait_or_take wr o s ≡ asleep t
    → t ≡ with_request wr s
unfolding wait_or_take
wait_or_take-asleep wr none s t e = cc
wait_or_take-asleep wr (some (q, rest)) s t e = absurd (take_child-ne-asleep _ _ _ _ _ t e)

wait_for-asleep :
    (pids : List ℕ) (wstatus options : ℕ) (s t : SignalManager)
    → wait_for pids wstatus options s ≡ asleep t
    → t ≡ with_request (wait_request pids wstatus options s) s
unfolding wait_for
wait_for-asleep [] wstatus options s t e = cc
wait_for-asleep (c ∷ cs) wstatus options s t e = wait_or_take-asleep _ _ s t e

waitpid-asleep :
    (pid : ℤ) (wstatus options : ℕ) (s t : SignalManager) (p : Process)
    → lookup s.current_proc s.pt.tab ≡ some p
    → waitpid pid wstatus options s ≡ asleep t
    → t ≡ with_request (wait_request (waited pid p.child_pids) wstatus options s) s
unfolding waitpid wait_as
waitpid-asleep pid wstatus options s t p here e =
    wait_for-asleep _ wstatus options s t (rw here at e)

-- The state behind a notice
abbrev pub or_same : SignalManager → Option SignalManager → SignalManager
or_same s none = s
or_same s (some t) = t

abbrev pub after_notice : ℕ → SignalManager → SignalManager
after_notice ev s = or_same s (notify_wait ev s)

-- The notice of a child whose request stands in its place
notify_wait-answers :
    (ev q : ℕ) (r : WaitRequest) (s : SignalManager) (p c : Process)
    → Placed r q s.pending_waits
    → member q r.wait_pids ≡ true
    → s.current_proc ≡ q
    → lookup q s.pt.tab ≡ some c
    → lookup r.pid s.pt.tab ≡ some p
    → p.stat ≡ sleeping
    → (rest : List WaitRequest) × (notify_wait ev s
        ≡ some (record s { pending_waits = rest; pt = wake r.pid s.pt; switch_blocked = false }))
      × Placed (answered q c.ret_val r) q rest
      × (lookup r.pid (wake r.pid s.pt).tab ≡ some (record p { stat = runnable }))
unfolding notify_wait notify_with
notify_wait-answers ev q r s p c placed asked turn child parent asleep' =
    let (rest, found, placed') = answer-own c.ret_val placed asked in
    (
      rest,
      rw (turn, child, found) (ground (arith, parent)),
      placed',
      ground (arith, lookup-wake r.pid s.pt p parent r.pid, asleep'),
    )

waitpid_resume-returns :
    (q status : ℕ) (r : WaitRequest) (s : SignalManager)
    → Placed (answered q status r) q s.pending_waits
    → s.current_proc ≡ r.pid
    → (t : SignalManager) × (waitpid_resume s ≡ returned (pos q) t)
      × ((r.wstatus ≢ 0) → t.user r.pid r.wstatus ≡ status)
unfolding waitpid_resume conclude store_status
waitpid_resume-returns q status r s placed turn =
    let (rest, found) = take_request-own placed in
    let own : take_request s.current_proc s.pending_waits ≡ some (answered q status r, rest) =
      rw turn found in
    (
      store_status s.current_proc r.wstatus status (record s { pending_waits = rest }),
      rw own refl,
      λ at. ground (arith, at, turn),
    )

-- A wait is answered. Let `waitpid` of a process fall asleep, with no other request for the child `q` and none of
-- the process's own. Let then other processes call `waitpid`, go on behind it, give notice and end, and
-- let anything change but the requests, with no notice of a child that the process waits for, until
-- `q` gives notice while the process still sleeps: then `notify_wait` makes the process runnable. Let
-- the like happen again, with no other notice of `q`, until the process has time again: then `waitpid`
-- returns the PID of `q`, and stores the status that `q` had at its notice at `wstatus` unless that is
-- null.
pub waitpid-notify_wait :
    (pid : ℤ) (wstatus options ev q : ℕ) (s t u v : SignalManager) (p p' c : Process)
    → lookup s.current_proc s.pt.tab ≡ some p
    → member q (waited pid p.child_pids) ≡ true
    → awaited q s.pending_waits ≡ false
    → requested s.current_proc s.pending_waits ≡ false
    → waitpid pid wstatus options s ≡ asleep t
    → Meanwhile (wait_request (waited pid p.child_pids) wstatus options s) t u
    → u.current_proc ≡ q
    → lookup q u.pt.tab ≡ some c
    → lookup s.current_proc u.pt.tab ≡ some p'
    → p'.stat ≡ sleeping
    → Meanwhile
        (answered q c.ret_val (wait_request (waited pid p.child_pids) wstatus options s))
        (after_notice ev u)
        v
    → v.current_proc ≡ s.current_proc
    → (notify_wait ev u ≡ some (after_notice ev u))
      × (lookup s.current_proc (after_notice ev u).pt.tab ≡ some (record p' { stat = runnable }))
      × (w : SignalManager) × (waitpid_resume v ≡ returned (pos q) w)
      × ((wstatus ≢ 0) → w.user s.current_proc wstatus ≡ c.ret_val)
waitpid-notify_wait pid wstatus options ev q s t u v p p' c here asked alone once e before turn
      child parent sleeps after turn' =
    let wr : WaitRequest = wait_request (waited pid p.child_pids) wstatus options s in
    let e' : t ≡ with_request wr s = waitpid-asleep pid wstatus options s t p here e in
    let at : Placed wr q t.pending_waits = rw e' (last-Placed wr q s.pending_waits alone once) in
    let placed = Meanwhile-Placed asked before at in
    let (rest, told, placed', woken) =
      notify_wait-answers ev q wr u p' c placed asked turn child parent sleeps in
    let g : SignalManager = record u {
      pending_waits = rest;
      pt = wake s.current_proc u.pt;
      switch_blocked = false;
    } in
    let same : after_notice ev u ≡ g = ap (or_same u) told in
    let at' : Placed (answered q c.ret_val wr) q v.pending_waits =
      Meanwhile-Placed (unfold member in ground arith) after (rw same placed') in
    let (w, resumed, stored) = waitpid_resume-returns q c.ret_val wr v at' turn' in
    (
      told ∙ ap some (sym same),
      ap (λ (x : SignalManager). lookup s.current_proc x.pt.tab) same ∙ woken,
      w,
      resumed,
      stored,
    )
