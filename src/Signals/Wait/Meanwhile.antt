-- ===== src/Signals/Wait/Meanwhile.antt =====
-- What may happen while a process sleeps in `waitpid` of kernel/cpp/SignalManager.cpp: its request stays in its
-- place among the others.
use stable_genius.Common.{ℕ, ◌≡◌, ◌≢◌, refl, true, false, Option, none, some, List, [], ◌∷◌, arith}
use stable_genius.Common.Maps.{lookup}
use stable_genius.Common.Int.{ℤ}
use stable_genius.Procs.{Process}
use stable_genius.Signals.{SignalManager, WaitRequest, WaitEvent, left_by, member, purge_process}
use stable_genius.Signals.Wait.{
  waited, wait_or_take, wait_as, notify_with, store_status, take_child, wait_for, waitpid,
  take_request, conclude, waitpid_resume, answer, status_of, notify_wait,
}
use stable_genius.Signals.Wait.Place.{
  Placed, append-Placed, take_request-Placed, answer-Placed, purge_waits-Placed,
}

take_child-pending :
    (pid wstatus q : ℕ) (c : Option Process) (s t : SignalManager)
    → t.pending_waits ≡ s.pending_waits
    → (left_by s (take_child pid wstatus q c t)).pending_waits ≡ s.pending_waits
unfolding take_child store_status
take_child-pending pid wstatus q none s t e = ground (arith, e)
take_child-pending pid wstatus q (some c) s t e = ground (arith, e)

store_status-pending :
    (pid wstatus status : ℕ) (s : SignalManager)
    → (store_status pid wstatus status s).pending_waits ≡ s.pending_waits
unfolding store_status
store_status-pending pid wstatus status s = ground arith

module _ {r : WaitRequest} {q : ℕ} where
  wait_or_take-Placed :
      (wr : WaitRequest) (o : Option (ℕ × List WaitEvent)) (s : SignalManager)
      → Placed r q s.pending_waits
      → Placed r q (left_by s (wait_or_take wr o s)).pending_waits
  unfolding wait_or_take
  wait_or_take-Placed wr none s p = append-Placed (wr ∷ []) p
  wait_or_take-Placed wr (some (x, events)) s p =
      rw
        (take_child-pending wr.pid wr.wstatus x (lookup x s.pt.tab) s
          (record s { happened_waits = events; switch_blocked = false }) refl)
        p

  wait_as-Placed :
      (o : Option Process) (pid : ℤ) (wstatus options : ℕ) (s : SignalManager)
      → Placed r q s.pending_waits
      → Placed r q (left_by s (wait_as o pid wstatus options s)).pending_waits
  unfolding wait_as
  wait_as-Placed none pid wstatus options s p = p
  wait_as-Placed (some x) pid wstatus options s p = by_pids (waited pid x.child_pids)
    where
      by_pids :
          (pids : List ℕ) → Placed r q (left_by s (wait_for pids wstatus options s)).pending_waits
      by_pids [] = unfold wait_for in p
      by_pids (c ∷ cs) = unfold wait_for in wait_or_take-Placed _ _ s p

  conclude-Placed :
      (o : Option (WaitRequest × List WaitRequest)) (s : SignalManager)
      → s.current_proc ≢ r.pid
      → take_request s.current_proc s.pending_waits ≡ o
      → Placed r q s.pending_waits
      → Placed r q (left_by s (conclude o s)).pending_waits
  unfolding conclude
  conclude-Placed none s other e p = p
  conclude-Placed (some (x, rest)) s other e p =
      let p' = take_request-Placed s.current_proc x rest p other e in by_pids x.wait_pids refl p'
    where
      by_pids :
          (pids : List ℕ)
          → x.wait_pids ≡ pids
          → Placed r q rest
          → Placed r q (left_by s (conclude (some (x, rest)) s)).pending_waits
      by_pids [] f p' = rw f p
      by_pids (c ∷ cs) f p' =
          let t : SignalManager = record s { pending_waits = rest } in
          rw (f, store_status-pending s.current_proc x.wstatus x.local_wstatus t) p'

  notify_with-Placed :
      (ev status : ℕ) (o : Option Process) (a : Option (ℕ × List WaitRequest)) (s t : SignalManager)
      → s.current_proc ≢ q
      → member s.current_proc r.wait_pids ≡ false
      → answer s.current_proc status s.pending_waits ≡ a
      → notify_with ev o a s ≡ some t
      → Placed r q s.pending_waits
      → Placed r q t.pending_waits
  unfolding notify_with
  notify_with-Placed ev status o none s t other unasked f e p =
      let same : t.pending_waits ≡ s.pending_waits = ground (arith, e) in rw same p
  notify_with-Placed ev status none (some x) s t other unasked f e p = absurd (ground (arith, e))
  notify_with-Placed ev status (some x) (some (w, rest)) s t other unasked f e p =
      let same : t.pending_waits ≡ rest = ground (arith, e) in
      rw same (answer-Placed s.current_proc status w rest p other unasked f)

-- What may happen while the request `r` stands: calls of `waitpid`, up to its yield or behind it, by other
-- processes; notices of children that `r` does not wait for; the end of other processes; and any change
-- that leaves the requests as they are, such as a switch to another process, a new or a changed
-- process, or an event taken away.
pub data Meanwhile (r : WaitRequest) : SignalManager → SignalManager → Type 0 where
  done : (s : SignalManager) → Meanwhile r s s
  waits :
      (s : SignalManager) (pid : ℤ) (wstatus options : ℕ) {t : SignalManager}
      → s.current_proc ≢ r.pid
      → Meanwhile r (left_by s (waitpid pid wstatus options s)) t
      → Meanwhile r s t
  resumes :
      (s : SignalManager) {t : SignalManager}
      → s.current_proc ≢ r.pid
      → Meanwhile r (left_by s (waitpid_resume s)) t
      → Meanwhile r s t
  notifies :
      (s u : SignalManager) (ev : ℕ) {t : SignalManager}
      → member s.current_proc r.wait_pids ≡ false
      → notify_wait ev s ≡ some u
      → Meanwhile r u t
      → Meanwhile r s t
  purges :
      (s : SignalManager) (pid : ℕ) {t : SignalManager}
      → pid ≢ r.pid
      → Meanwhile r (purge_process pid s) t
      → Meanwhile r s t
  others :
      (s u : SignalManager) {t : SignalManager}
      → u.pending_waits ≡ s.pending_waits
      → Meanwhile r u t
      → Meanwhile r s t

pub Meanwhile-Placed :
    {r : WaitRequest} {q : ℕ} {s t : SignalManager}
    → member q r.wait_pids ≡ true
    → Meanwhile r s t
    → Placed r q s.pending_waits
    → Placed r q t.pending_waits
Meanwhile-Placed asked (done s) p = p
Meanwhile-Placed asked (waits s pid wstatus options other more) p =
    Meanwhile-Placed asked more
      (unfold waitpid in wait_as-Placed (lookup s.current_proc s.pt.tab) pid wstatus options s p)
Meanwhile-Placed asked (resumes s other more) p = Meanwhile-Placed asked more (
    unfold waitpid_resume in
    conclude-Placed (take_request s.current_proc s.pending_waits) s other refl p)
Meanwhile-Placed {r} {q} asked (notifies s u ev unasked e more) p =
    let other : s.current_proc ≢ q = λ f. absurd (ground (arith, asked, unasked, f)) in
    let x = lookup s.current_proc s.pt.tab in
    Meanwhile-Placed asked more
      (notify_with-Placed ev (status_of x) x _ s u other unasked refl (unfold notify_wait in e) p)
Meanwhile-Placed asked (purges s pid other more) p =
    Meanwhile-Placed asked more (unfold purge_process in purge_waits-Placed pid p other)
Meanwhile-Placed asked (others s u same more) p = Meanwhile-Placed asked more (rw same p)
