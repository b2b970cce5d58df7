-- ===== src/Signals/Wait/NoMissed.antt =====
-- No wake-up is missed: an event that has happened is never one that a request waits for.
use stable_genius.Common.{
  ℕ, ◌≡◌, refl, Bool, true, false, ◌||◌, Option, none, some, List, [], ◌∷◌, ◌++◌, ◌==◌, arith,
  Bool-cases, Option-cases, inl, inr,
}
use stable_genius.Common.Maps.{lookup}
use stable_genius.Common.Int.{ℤ}
use stable_genius.Procs.{Process}
use stable_genius.Signals.{
  SignalManager, WaitRequest, WaitEvent, left_by, member, purge_process, purge_events, purge_waits,
}
use stable_genius.Signals.Wait.{
  waited, wait_request, wait_or_take, wait_as, notify_with, take_event, store_status, take_child,
  wait_for, waitpid, take_request, conclude, waitpid_resume, answer, status_of, notify_wait,
}

-- Whether the process has given notice, and whether a request waits for it.
unfoldable pub happened : ℕ → List WaitEvent → Bool
happened q [] = false
happened q (e ∷ es) = e.pid == q || happened q es

unfoldable pub awaited : ℕ → List WaitRequest → Bool
awaited q [] = false
awaited q (r ∷ rs) = member q r.wait_pids || awaited q rs

abbrev pub NoMissed : SignalManager → Type 0
NoMissed s = (q : ℕ) → happened q s.happened_waits ≡ true → awaited q s.pending_waits ≡ false

happened-append :
    (q : ℕ) (es fs : List WaitEvent) → happened q (es ++ fs) ≡ (happened q es || happened q fs)
unfolding happened
happened-append q [] fs = refl
happened-append q (e ∷ es) fs = ground (arith, happened-append q es fs)

awaited-append :
    (q : ℕ) (rs ss : List WaitRequest) → awaited q (rs ++ ss) ≡ (awaited q rs || awaited q ss)
unfolding awaited
awaited-append q [] ss = refl
awaited-append q (r ∷ rs) ss = ground (arith, awaited-append q rs ss)

-- Removals make nothing new happen, and nothing new awaited.
take_event-some :
    (x : ℕ) (pids : List ℕ) (es : List WaitEvent) {q : ℕ} {rest : List WaitEvent}
    → take_event pids es ≡ some (q, rest)
    → happened x rest ≡ true
    → happened x es ≡ true
unfolding take_event happened
take_event-some x pids [] e h = absurd (ground arith)
take_event-some x pids (v ∷ es) {q} {rest} e h = elim (Option-cases (take_event pids es)) [
  | inl gone ↦ ground (arith, gone)
  | inr ((p, left), found) ↦
      ground (arith, found, take_event-some x pids es {q = p} {rest = left} found)
]

-- Where no event is taken, none of the PIDs has given notice.
take_event-none :
    (x : ℕ) (pids : List ℕ) (es : List WaitEvent)
    → take_event pids es ≡ none
    → happened x es ≡ true
    → member x pids ≡ false
unfolding take_event happened
take_event-none x pids [] e h = absurd (ground arith)
take_event-none x pids (v ∷ es) e h = elim (Option-cases (take_event pids es)) [
  | inl gone ↦ ground (arith, gone, take_event-none x pids es gone)
  | inr ((p, left), found) ↦ ground (arith, found)
]

take_request-some :
    (x pid : ℕ) (rs : List WaitRequest) {r : WaitRequest} {rest : List WaitRequest}
    → take_request pid rs ≡ some (r, rest)
    → awaited x rs ≡ false
    → awaited x rest ≡ false
unfolding take_request awaited
take_request-some x pid [] e h = absurd (ground arith)
take_request-some x pid (v ∷ rs) {r} {rest} e h = elim (Option-cases (take_request pid rs)) [
  | inl gone ↦ ground (arith, gone)
  | inr ((p, left), found) ↦
      ground (arith, found, take_request-some x pid rs {r = p} {rest = left} found)
]

answer-some :
    (x pid status : ℕ) (rs : List WaitRequest) {w : ℕ} {rest : List WaitRequest}
    → answer pid status rs ≡ some (w, rest)
    → awaited x rs ≡ false
    → awaited x rest ≡ false
unfolding answer awaited member
answer-some x pid status [] e h = absurd (ground arith)
answer-some x pid status (v ∷ rs) {w} {rest} e h = elim (Bool-cases (member pid v.wait_pids)) [
  | inl here ↦ elim (Bool-cases (pid == x)) [
    | inl same ↦ let e' : pid ≡ x = ground arith in absurd (ground (arith, here, e', h))
    | inr other ↦ ground (arith, here, other)
  ]
  | inr there ↦ elim (Option-cases (answer pid status rs)) [
    | inl gone ↦ ground (arith, gone, there)
    | inr ((p, left), found) ↦
        ground (arith, there, found, answer-some x pid status rs {w = p} {rest = left} found)
  ]
]

answer-none :
    (pid status : ℕ) (rs : List WaitRequest) → answer pid status rs ≡ none → awaited pid rs ≡ false
unfolding answer awaited
answer-none pid status [] e = refl
answer-none pid status (v ∷ rs) e = elim (Option-cases (answer pid status rs)) [
  | inl gone ↦ ground (arith, gone, answer-none pid status rs gone)
  | inr ((p, left), found) ↦ ground (arith, found)
]

happened-purge_events :
    (x pid : ℕ) (es : List WaitEvent)
    → happened x (purge_events pid es) ≡ true
    → happened x es ≡ true
unfolding happened purge_events
happened-purge_events x pid [] h = h
happened-purge_events x pid (e ∷ es) h = ground (arith, happened-purge_events x pid es)

awaited-purge_waits :
    (x pid : ℕ) (rs : List WaitRequest)
    → awaited x rs ≡ false
    → awaited x (purge_waits pid rs) ≡ false
unfolding awaited purge_waits
awaited-purge_waits x pid [] h = h
awaited-purge_waits x pid (r ∷ rs) h = ground (arith, awaited-purge_waits x pid rs)

take_child-NoMissed :
    (pid wstatus q : ℕ) (p : Option Process) (s t : SignalManager)
    → NoMissed s
    → NoMissed t
    → NoMissed (left_by s (take_child pid wstatus q p t))
unfolding take_child store_status
take_child-NoMissed pid wstatus q none s t v w x h = ground (arith, v x, w x)
take_child-NoMissed pid wstatus q (some p) s t v w x h = ground (arith, v x, w x)

wait_or_take-NoMissed :
    (wr : WaitRequest) (o : Option (ℕ × List WaitEvent)) (s : SignalManager)
    → take_event wr.wait_pids s.happened_waits ≡ o
    → NoMissed s
    → NoMissed (left_by s (wait_or_take wr o s))
unfolding wait_or_take
wait_or_take-NoMissed wr none s e v x h =
    let other = take_event-none x wr.wait_pids s.happened_waits e h in
    unfold awaited in ground (arith, awaited-append x s.pending_waits (wr ∷ []), v x h, other)
wait_or_take-NoMissed wr (some (q, rest)) s e v x h =
    take_child-NoMissed wr.pid wr.wstatus q (lookup q s.pt.tab) s
      (record s { happened_waits = rest; switch_blocked = false }) v
      (λ y k. v y (take_event-some y wr.wait_pids s.happened_waits e k)) x h

pub waitpid-NoMissed :
    (pid : ℤ) (wstatus options : ℕ) (s : SignalManager)
    → NoMissed s
    → NoMissed (left_by s (waitpid pid wstatus options s))
unfolding waitpid wait_as wait_for
waitpid-NoMissed pid wstatus options s v = by_process (lookup s.current_proc s.pt.tab)
  where
    by_pids : (pids : List ℕ) → NoMissed (left_by s (wait_for pids wstatus options s))
    by_pids [] = v
    by_pids (c ∷ cs) = wait_or_take-NoMissed (wait_request (c ∷ cs) wstatus options s) _ s refl v

    by_process : (p : Option Process) → NoMissed (left_by s (wait_as p pid wstatus options s))
    by_process none = v
    by_process (some p) = by_pids (waited pid p.child_pids)

pub waitpid_resume-NoMissed :
    (s : SignalManager) → NoMissed s → NoMissed (left_by s (waitpid_resume s))
unfolding waitpid_resume conclude store_status
waitpid_resume-NoMissed s v = concluded (take_request s.current_proc s.pending_waits) refl
  where
    concluded :
        (o : Option (WaitRequest × List WaitRequest))
        → take_request s.current_proc s.pending_waits ≡ o
        → NoMissed (left_by s (conclude o s))
    concluded none e = v
    concluded (some (r, rest)) e = λ x h.
        ground
          (arith, v x, take_request-some x s.current_proc s.pending_waits {r = r} {rest = rest} e)

module _ (ev : ℕ) (s t : SignalManager) (v : NoMissed s) where
  notify_with-NoMissed :
      (status : ℕ) (p : Option Process) (o : Option (ℕ × List WaitRequest))
      → answer s.current_proc status s.pending_waits ≡ o
      → notify_with ev p o s ≡ some t
      → NoMissed t
  unfolding notify_with
  notify_with-NoMissed status p none found e x h =
      let event : WaitEvent = record { pid = s.current_proc; ev = ev } in
      let at = answer-none s.current_proc status s.pending_waits found in
      let now = happened-append x s.happened_waits (event ∷ []) in
      unfold happened in
      elim (Bool-cases (s.current_proc == x)) [
        | inl same ↦ let e' : s.current_proc ≡ x = ground arith in ground (arith, at, e')
        | inr other ↦ ground (arith, now, v x, other)
      ]
  notify_with-NoMissed status none (some r) found e x h = cc
  notify_with-NoMissed status (some p) (some (w, requests)) found e x h =
      ground (arith, v x, answer-some x s.current_proc status s.pending_waits found)

  pub notify_wait-NoMissed : notify_wait ev s ≡ some t → NoMissed t
  unfolding notify_wait
  notify_wait-NoMissed e =
      let p = lookup s.current_proc s.pt.tab in notify_with-NoMissed (status_of p) p _ refl e

-- What may happen to the lists of waits: calls by any processes, in any order, with the processes,
-- the files, the memory and the scheduler free to change between them.
pub data Step : SignalManager → SignalManager → Type 0 where
  waits :
      (s : SignalManager) (pid : ℤ) (wstatus options : ℕ)
      → Step s (left_by s (waitpid pid wstatus options s))
  resumes : (s : SignalManager) → Step s (left_by s (waitpid_resume s))
  notifies : (s t : SignalManager) (ev : ℕ) → notify_wait ev s ≡ some t → Step s t
  purges : (s : SignalManager) (pid : ℕ) → Step s (purge_process pid s)
  others :
      (s t : SignalManager)
      → t.pending_waits ≡ s.pending_waits
      → t.happened_waits ≡ s.happened_waits
      → Step s t

-- No wake-up is missed. Every call of `waitpid` up to its yield or behind it, of `notify_wait` and of
-- `purge_process`, by any process, and any change of the processes between them, keeps this: no
-- request waits for a child whose notice lies among the events that have happened.
pub Step-NoMissed : {s t : SignalManager} → Step s t → NoMissed s → NoMissed t
unfolding purge_process
Step-NoMissed (waits s pid wstatus options) v = waitpid-NoMissed pid wstatus options s v
Step-NoMissed (resumes s) v = waitpid_resume-NoMissed s v
Step-NoMissed (notifies s t ev e) v = notify_wait-NoMissed ev s t v e
Step-NoMissed (purges s pid) v = λ x h.
    awaited-purge_waits x pid s.pending_waits (v x (happened-purge_events x pid s.happened_waits h))
Step-NoMissed (others s t same same') v = λ x h. ground (arith, v x, same, same')
