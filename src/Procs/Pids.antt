-- ===== src/Procs/Pids.antt =====
-- The search for a free PID goes round all PIDs once and ends at the one where it began.
use stable_genius.Common.{
  ℕ, zero, suc, ◌+◌, ◌-◌, ◌≤◌, ◌<◌, ◌≡◌, true, false, ltb, ◌==◌, if◌then◌else◌, arith, Bool-cases,
  inl, inr,
}
use native.Mathlib.Decide.{dec_le}
use stable_genius.Common.Maps.{Map, has}
use stable_genius.Procs.{Process, max_pid, Search, found, full, out_of_fuel, search_pid}

-- How many PIDs the search still passes before it is back at `start`.
abbrev pub left : (start pid : ℕ) → ℕ
left start pid = if ltb start pid then start + (max_pid - 1) - pid else start - pid

abbrev pub IsPid : ℕ → Type 0
IsPid q = (1 ≤ q) × (q < max_pid)

-- What the end of a search from `pid` says.
abbrev pub Ends : Map Process → (start pid : ℕ) → Search → Type 0
Ends tab start pid (found q) = IsPid q × (has q tab ≡ false)
Ends tab start pid (full q) =
    (q ≡ start) × ((x : ℕ) → IsPid x → left start x ≤ left start pid → has x tab ≡ true)
Ends tab start pid out_of_fuel = ⊥

abbrev pub step_pid : ℕ → ℕ
step_pid pid = (if pid == max_pid - 1 then 0 else pid) + 1

left_step :
    (start pid : ℕ)
    → IsPid start
    → IsPid pid
    → (pid == start) ≡ false
    → IsPid (step_pid pid) × (suc (left start (step_pid pid)) ≡ left start pid)
left_step start pid s p ne = ground arith

eq_of_left : (start x y : ℕ) → IsPid start → IsPid x → IsPid y → left start x ≡ left start y → x ≡ y
eq_of_left start x y s p q e = ground arith

Ends-step :
    (tab : Map Process) (start pid : ℕ) (r : Search)
    → IsPid start
    → IsPid pid
    → has pid tab ≡ true
    → (pid == start) ≡ false
    → Ends tab start (step_pid pid) r
    → Ends tab start pid r
Ends-step tab start pid (found q) s p h ne e = e
Ends-step tab start pid (full q) s p h ne e =
    let (next, one_less) = left_step start pid s p ne in
    (
      e.0,
      λ x at near. elim (dec_le (left start x) (left start (step_pid pid))) [
        | yes closer ↦ e.1 x at closer
        | no last ↦
            let same : left start x ≡ left start pid = omega (arith, one_less) in
            rw (eq_of_left start x pid s at p same) h
      ],
    )
Ends-step tab start pid out_of_fuel s p h ne e = e

-- With more fuel than PIDs left the search ends, at a PID that is not in the table, or at the start
-- when all that it passed are.
pub search_pid-Ends :
    (fuel : ℕ) (tab : Map Process) (start pid : ℕ)
    → IsPid start
    → IsPid pid
    → left start pid < fuel
    → Ends tab start pid (search_pid fuel tab start pid)
unfolding search_pid
search_pid-Ends zero tab start pid s p enough = absurd (omega arith)
search_pid-Ends (suc n) tab start pid s p enough = elim (Bool-cases (has pid tab)) [
  | inr free ↦ rw free (p, free)
  | inl taken ↦ elim (Bool-cases (pid == start)) [
    | inl home ↦
        let same : pid ≡ start = ground arith in
        let done : left start pid ≡ 0 = ground arith in
        rw (taken, home)
          (same, λ x at near. rw (eq_of_left start x pid s at p (omega (arith, done))) taken)
    | inr away ↦
        let (next, one_less) = left_step start pid s p away in
        rw (taken, away)
          (Ends-step tab start pid _ s p taken away
            (search_pid-Ends n tab start (step_pid pid) s next (omega (arith, one_less))))
  ]
]
