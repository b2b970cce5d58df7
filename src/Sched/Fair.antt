-- ===== src/Sched/Fair.antt =====
-- The round robin is fair: a process that stays ready has its turn.
use stable_genius.Common.{
  ℕ, zero, suc, ◌≤◌, ◌<◌, ◌≡◌, refl, true, false, some, ◌==◌, if◌then◌else◌, arith, Bool-cases,
  Option-cases, inl, inr,
}
use stable_genius.Common.Maps.{lookup, insert, has, lookup-insert}
use stable_genius.Procs.{Process, ProcTable, active, runnable, max_pid}
use stable_genius.Sched.{is_active, swap_out, swap_in, switch_to, next_proc}
use stable_genius.Sched.Order.{ready, behind, choose-some, choose-ends}
use stable_genius.Sched.Active.{OneActive, next_proc-Turned}

-- Turns from one current process to another in which `q` is ready each time and is passed over. In
-- between the table may change in any way that keeps its invariant.
pub data PassedOver (q : ℕ) : ℕ → ℕ → ℕ → Type 0 where
  begin : (a : ℕ) → PassedOver q zero a a
  turn :
      (n a b c : ℕ) (t u : ProcTable)
      → OneActive a t
      → ready q t.tab ≡ true
      → next_proc a t ≡ some (u, b)
      → (q == b) ≡ false
      → PassedOver q n b c
      → PassedOver q (suc n) a c

ready-has : (q : ℕ) (t : ProcTable) → ready q t.tab ≡ true → has q t.tab ≡ true
unfolding ready
ready-has q t h = ground (arith, h)

-- The current process moves towards `q`.
behind_step :
    (q a b : ℕ)
    → q < max_pid
    → a < max_pid
    → b < max_pid
    → behind a b ≤ behind a q
    → (q == b) ≡ false
    → behind b q < behind a q
behind_step q a b hq ha hb near other = ground (arith, near, other)

-- The round robin is fair. However the table changes between the turns, within its invariant, a
-- process that is ready at each of them is passed over fewer times than its PID lies behind the
-- current one in the cyclic order of the PIDs: fewer than 32768 times.
pub PassedOver-lt :
    (q n a c : ℕ)
    → a < max_pid
    → q < max_pid
    → PassedOver q n a c
    → (n < behind a q) × (behind a q ≤ max_pid)
PassedOver-lt q n a c ha hq (begin b) = ground arith
PassedOver-lt q n a c ha hq (turn m a' b c' t u v up e other rest) =
    let turned = next_proc-Turned a b t u v e in
    let hb = turned.0.pids b turned.0.here in
    let step = behind_step q a b hq ha hb (turned.3 q up) other in
    let later = PassedOver-lt q m b c hb hq rest in ground (arith, step, later, ha, hq)

-- A turn ends, without a panic, if some process is ready.
next_proc-ends :
    (current x : ℕ) (t : ProcTable)
    → OneActive current t
    → ready x t.tab ≡ true
    → (u : ProcTable) × (next : ℕ) × (next_proc current t ≡ some (u, next))
unfolding next_proc switch_to swap_out swap_in
next_proc-ends current x t v h =
    let (c, p, chosen) = choose-ends current t.tab v.sorted v.here x h in
    let (at, may, near) = choose-some current t.tab v.sorted v.here c p v.pids chosen in
    elim (Bool-cases (is_active p.stat)) [
      | inl now ↦ (t, current, ground (arith, chosen, now))
      | inr rests ↦ elim (Option-cases (lookup current t.tab)) [
        | inl gone ↦ absurd (ground (arith, v.here, gone))
        | inr (q, here) ↦
            let q' : Process = record q { stat = runnable } in
            let w : ProcTable =
              if is_active q.stat then record t { tab = insert current q' t.tab } else t in
            let at' : lookup c w.tab ≡ some p =
              ground (arith, at, here, rests, lookup-insert current c q' t.tab) in
            (
              record w { tab = insert c (record p { stat = active }) w.tab },
              c,
              rw (chosen, rests) (rw here (rw at' (rw may refl))),
            )
      ]
    ]
