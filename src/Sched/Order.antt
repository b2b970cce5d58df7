-- ===== src/Sched/Order.antt =====
-- The choice of the next process: the one that is ready and comes next in the cyclic order of PIDs.
use stable_genius.Common.{
  ℕ, suc, ◌+◌, ◌-◌, ◌≤◌, ◌<◌, ◌≡◌, refl, Bool, true, false, ◌||◌, Option, none, some, [], ◌∷◌, ◌++◌,
  ◌==◌, ltb, if◌then◌else◌, arith, Bool-cases, Option-cases, inl, inr,
}
use stable_genius.Common.Maps.{Map, lookup, has}
use stable_genius.Procs.{Process, max_pid}
use stable_genius.Sched.{is_active, is_runnable, after, upto, first_ready, choose}

-- The keys rise, from `low` up.
abbrev pub SortedFrom : ℕ → Map Process → Type 0
SortedFrom low [] = Unit
SortedFrom low ((k, p) ∷ m) = (low ≤ k) × SortedFrom (suc k) m

-- Whether a process is in the table and may run.
abbrev ready_process : Option Process → Bool
ready_process none = false
ready_process (some p) = is_runnable p.stat || is_active p.stat

unfoldable pub ready : ℕ → Map Process → Bool
ready x m = ready_process (lookup x m)

-- How far a PID lies behind another in the cyclic order, from 1 to `max_pid`.
abbrev pub behind : ℕ → ℕ → ℕ
behind a b = if ltb a b then b - a else b + max_pid - a

lookup-SortedFrom : (low x : ℕ) (m : Map Process) → SortedFrom low m → x < low → lookup x m ≡ none
unfolding lookup
lookup-SortedFrom low x [] s h = refl
lookup-SortedFrom low x ((k, p) ∷ m) s h = ground (arith, s.0, lookup-SortedFrom (suc k) x m s.1)

ready-SortedFrom : (low x : ℕ) (m : Map Process) → SortedFrom low m → ready x m ≡ true → low ≤ x
unfolding ready
ready-SortedFrom low x m s h = elim (Bool-cases (ltb x low)) [
  | inl below ↦ absurd (ground (arith, lookup-SortedFrom low x m s, below, h))
  | inr above ↦ ground (arith, above)
]

abbrev pub may_run : Process → Bool
may_run p = is_runnable p.stat || is_active p.stat

-- The first process that is ready is one of the table, and the one with the least PID.
first_ready-some :
    (low c : ℕ) (p : Process) (m : Map Process)
    → SortedFrom low m
    → first_ready m ≡ some (c, p)
    → (lookup c m ≡ some p) × (may_run p ≡ true) × (low ≤ c) × ((x : ℕ) → ready x m ≡ true → c ≤ x)
unfolding first_ready ready lookup
first_ready-some low c p [] s e = absurd (ground arith)
first_ready-some low c p ((k, q) ∷ m) s e = elim (Bool-cases (may_run q)) [
  | inl now ↦
      let same : k ≡ c = ground (arith, e, now) in
      let same' : q ≡ p = ground (arith, e, now) in
      (
        ground (arith, same, same'),
        ground (arith, now, same'),
        omega (arith, s.0, same),
        λ x h. omega (arith, same, ready-SortedFrom k x ((k, q) ∷ m) (omega arith, s.1) h),
      )
  | inr later ↦
      let (at, may, above, least) = first_ready-some (suc k) c p m s.1 (ground (arith, e, later)) in
      (
        ground (arith, at, above),
        may,
        omega (arith, above, s.0),
        λ x h. least x (ground (arith, h, later)),
      )
]

first_ready-none : (x : ℕ) (m : Map Process) → first_ready m ≡ none → ready x m ≡ false
unfolding first_ready ready lookup
first_ready-none x [] e = refl
first_ready-none x ((k, p) ∷ m) e = ground (arith, e, first_ready-none x m)

first_ready-append :
    (m n : Map Process)
    → first_ready (m ++ n) ≡ (elim (first_ready m) [ none ↦ first_ready n | some r ↦ some r ])
unfolding first_ready
first_ready-append [] n = refl
first_ready-append ((k, p) ∷ m) n = ground (arith, first_ready-append m n)

-- The two parts of a map at one of its keys.
after-SortedFrom :
    (low pid : ℕ) (m : Map Process) → SortedFrom low m → SortedFrom (suc pid) (after pid m)
unfolding after
after-SortedFrom low pid [] s = tt
after-SortedFrom low pid ((k, p) ∷ m) s = elim (Bool-cases (k == pid)) [
  | inl here ↦ let e : k ≡ pid = ground (arith, here) in rw here (rw (← e) s.1)
  | inr there ↦ rw there (after-SortedFrom (suc k) pid m s.1)
]

upto-SortedFrom : (low pid : ℕ) (m : Map Process) → SortedFrom low m → SortedFrom low (upto pid m)
unfolding upto
upto-SortedFrom low pid [] s = tt
upto-SortedFrom low pid ((k, p) ∷ m) s = elim (Bool-cases (k == pid)) [
  | inl here ↦ rw here (s.0, tt)
  | inr there ↦ rw there (s.0, upto-SortedFrom (suc k) pid m s.1)
]

lookup-after :
    (low pid x : ℕ) (m : Map Process)
    → SortedFrom low m
    → has pid m ≡ true
    → lookup x (after pid m) ≡ (if ltb pid x then lookup x m else none)
unfolding after lookup
lookup-after low pid x [] s h = absurd (ground arith)
lookup-after low pid x ((k, p) ∷ m) s h =
    let gone = lookup-SortedFrom (suc k) x m s.1 in
    let gone' = lookup-SortedFrom (suc k) pid m s.1 in
    ground (arith, h, gone, gone', lookup-after (suc k) pid x m s.1)

lookup-upto :
    (low pid x : ℕ) (m : Map Process)
    → SortedFrom low m
    → has pid m ≡ true
    → lookup x (upto pid m) ≡ (if ltb pid x then none else lookup x m)
unfolding upto lookup
lookup-upto low pid x [] s h = absurd (ground arith)
lookup-upto low pid x ((k, p) ∷ m) s h =
    let gone = lookup-SortedFrom (suc k) x m s.1 in
    let gone' = lookup-SortedFrom (suc k) pid m s.1 in
    ground (arith, h, gone, gone', lookup-upto (suc k) pid x m s.1)

module _ (current : ℕ) (m : Map Process) (s : SortedFrom 0 m) (here : has current m ≡ true) where
  ready-after : (x : ℕ) → ready x m ≡ true → current < x → ready x (after current m) ≡ true
  unfolding ready
  ready-after x h above = ground (arith, lookup-after 0 current x m s here, h, above)

  ready-upto : (x : ℕ) → ready x m ≡ true → x ≤ current → ready x (upto current m) ≡ true
  unfolding ready
  ready-upto x h below = ground (arith, lookup-upto 0 current x m s here, h, below)

  -- The chosen process is one of the table that may run, and none that may run is nearer.
  pub choose-some :
      (c : ℕ) (p : Process)
      → ((q : ℕ) → has q m ≡ true → q < max_pid)
      → choose current m ≡ some (c, p)
      → (lookup c m ≡ some p)
        × (may_run p ≡ true)
        × ((x : ℕ) → ready x m ≡ true → behind current c ≤ behind current x)
  unfolding choose
  choose-some c p pids e = elim (Option-cases (first_ready (after current m))) [
    | inl gone ↦
        let e' : first_ready (upto current m) ≡ some (c, p) =
          ground (arith, e, gone, first_ready-append (after current m) (upto current m)) in
        let (at, may, above, least) =
          first_ready-some 0 c p (upto current m) (upto-SortedFrom 0 current m s) e' in
        let at' = lookup-upto 0 current c m s here in
        (
          ground (arith, at, at'),
          may,
          λ x h. elim (Bool-cases (ltb current x)) [
            | inl up ↦ absurd (
                ground (
                  arith,
                  first_ready-none x (after current m) gone,
                  ready-after x h (ground (arith, up)),
                ))
            | inr down ↦
                let near = least x (ready-upto x h (ground (arith, down))) in
                ground (arith, near, down)
          ],
        )
    | inr ((c', p'), found) ↦
        let e' : first_ready (after current m) ≡ some (c, p) =
          ground (arith, e, found, first_ready-append (after current m) (upto current m)) in
        let (at, may, above, least) =
          first_ready-some (suc current) c p (after current m) (after-SortedFrom 0 current m s)
            e' in
        let at' = lookup-after 0 current c m s here in
        let at'' : lookup c m ≡ some p = ground (arith, at, at', above) in
        let low = pids c (ground (arith, at'')) in
        (
          at'',
          may,
          λ x h. elim (Bool-cases (ltb current x)) [
            | inl up ↦
                let near = least x (ready-after x h (ground (arith, up))) in
                ground (arith, near, up, above)
            | inr down ↦ ground (arith, low, down, above)
          ],
        )
  ]

  pub choose-ends :
      (x : ℕ) → ready x m ≡ true → (c : ℕ) × (p : Process) × (choose current m ≡ some (c, p))
  unfolding choose
  choose-ends x h =
      let all = first_ready-append (after current m) (upto current m) in
      elim (Option-cases (first_ready (after current m))) [
        | inr ((c, p), found) ↦ (c, p, ground (arith, found, all))
        | inl gone ↦ elim (Option-cases (first_ready (upto current m))) [
          | inr ((c, p), found) ↦ (c, p, ground (arith, found, gone, all))
          | inl gone' ↦ elim (Bool-cases (ltb current x)) [
            | inl above ↦ absurd (
                ground (
                  arith,
                  first_ready-none x (after current m) gone,
                  ready-after x h (ground arith),
                ))
            | inr below ↦ absurd (
                ground
                  (arith, first_ready-none x (upto current m) gone', ready-upto x h (ground arith)))
          ]
        ]
      ]
