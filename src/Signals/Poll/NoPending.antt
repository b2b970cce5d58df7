-- ===== src/Signals/Poll/NoPending.antt =====
-- A call of `poll` that has returned leaves no request of its process pending: the requests lie in
-- memory of the caller.
use stable_genius.Common.{
  ℕ, zero, suc, ◌+◌, ◌≤◌, ◌≡◌, ◌⊎◌, refl, Bool, true, false, ◌||◌, Option, none, some, List, [],
  ◌∷◌, ◌==◌, ◌∙◌, arith, inl, inr,
}
use stable_genius.Common.Maps.{lookup}
use stable_genius.Common.Int.{ℤ}
use stable_genius.Procs.{Process}
use stable_genius.Signals.{SignalManager, PollEvent, returned, left_by, purge_polls}
use stable_genius.Signals.Poll.{
  Polling, poll_one, poll_scan, poll_decide, poll_as, poll, poll_resume, sizeof_pollfd,
}

-- Whether an event of the process is pending.
unfoldable pub pending : ℕ → List PollEvent → Bool
pending pid [] = false
pending pid (e ∷ es) = e.pid == pid || pending pid es

pending-purge_polls : (pid : ℕ) (es : List PollEvent) → pending pid (purge_polls pid es) ≡ false
unfolding pending purge_polls
pending-purge_polls pid [] = refl
pending-purge_polls pid (e ∷ es) = ground (arith, pending-purge_polls pid es)

module _ (poll_check : ℕ → ℕ → ℕ) (active : Process) (pid : ℕ) (timeout : ℤ) where
  poll_one-found_count :
      (req : ℕ) (c : Polling)
      → let d = poll_one poll_check active pid req timeout c in
        (c.found_count ≤ d.found_count)
        × (d.found_count ≡ c.found_count → d.state.pending_polls ≡ c.state.pending_polls)
  unfolding poll_one
  poll_one-found_count req c = (ground arith, λ h. ground (arith, h))

  -- If the loop adds no event, the list is as it was.
  poll_scan-found_count :
      (n req : ℕ) (c : Polling)
      → let d = poll_scan poll_check active n pid req timeout c in
        (c.found_count ≤ d.found_count)
        × (d.found_count ≡ c.found_count → d.state.pending_polls ≡ c.state.pending_polls)
  unfolding poll_scan
  poll_scan-found_count zero req c = (omega arith, λ h. refl)
  poll_scan-found_count (suc n) req c =
      let d = poll_one poll_check active pid req timeout c in
      let (up, same) = poll_one-found_count req c in
      let (up', same') = poll_scan-found_count n (req + sizeof_pollfd) d in
      (
        omega (arith, up, up'),
        λ h. same' (omega (arith, up, up', h)) ∙ same (omega (arith, up, up', h)),
      )

poll_decide-returned :
    (pid : ℕ) (c : Polling) (n : ℤ) (t : SignalManager)
    → (c.found_count ≡ 0 → pending pid c.state.pending_polls ≡ false)
    → poll_decide pid c ≡ returned n t
    → (t.switch_blocked ≡ false) × (pending pid t.pending_polls ≡ false)
unfolding poll_decide
poll_decide-returned pid c n t h e =
    let gone = pending-purge_polls pid c.state.pending_polls in
    (ground (arith, e), ground (arith, gone, h))

module _ (poll_check : ℕ → ℕ → ℕ) (fds nfds : ℕ) (timeout : ℤ) where
  poll_as-returned :
      (p : Option Process) (s t : SignalManager) (n : ℤ)
      → pending s.current_proc s.pending_polls ≡ false
      → poll_as poll_check fds nfds timeout p s ≡ returned n t
      → ((p ≡ none) ⊎ (t.switch_blocked ≡ false)) × (pending s.current_proc t.pending_polls ≡ false)
  unfolding poll_as
  poll_as-returned none s t n h e = (inl refl, ground (arith, h))
  poll_as-returned (some active) s t n h e =
      let start : Polling = record { state = s; ret_count = 0; found_count = 0 } in
      let c = poll_scan poll_check active nfds s.current_proc fds timeout start in
      let (up, same) =
        poll_scan-found_count poll_check active s.current_proc timeout nfds fds start in
      let (open', gone) = poll_decide-returned s.current_proc c n t (λ z. rw (same z) h) e in
      (inr open', gone)

  -- When `poll` returns at once, no event of its process is pending, provided that none was before,
  -- and task switching is not blocked, unless the call changed nothing or its process is not in the
  -- table. When `poll` returns after its process has slept, no event of the process is pending and
  -- switching is not blocked, whatever has happened in between.
  pub poll-NoPending :
      (s t u : SignalManager) (n : ℤ)
      → pending s.current_proc s.pending_polls ≡ false
      → poll poll_check fds nfds timeout s ≡ returned n t
      → (pending s.current_proc t.pending_polls ≡ false)
        × ((t ≡ s) ⊎ (lookup s.current_proc s.pt.tab ≡ none) ⊎ (t.switch_blocked ≡ false))
        × (pending s.current_proc (left_by u (poll_resume s.current_proc u)).pending_polls ≡ false)
        × ((left_by u (poll_resume s.current_proc u)).switch_blocked ≡ false)
  unfolding poll poll_resume
  poll-NoPending s t u n h e =
      let after =
        poll_as-returned (lookup s.current_proc s.pt.tab) (record s { switch_blocked = true }) t n
          h in
      (
        ground (arith, h, e, after),
        ground (arith, e, after),
        pending-purge_polls s.current_proc u.pending_polls,
        refl,
      )
