-- ===== src/Sched/Active.antt =====
-- At most one process is active, the current one.
use stable_genius.Common.{
  ℕ, suc, ◌≤◌, ◌<◌, ◌≡◌, ◌⊎◌, sym, ◌∙◌, refl, true, false, some, [], ◌∷◌, ◌==◌, ltb, arith,
  Bool-cases, Option-cases, inl, inr,
}
use stable_genius.Common.Maps.{Map, lookup, insert, has, lookup-insert}
use stable_genius.Procs.{Process, ProcTable, active, runnable, max_pid}
use stable_genius.Sched.{is_active, choose, swap_out, swap_in, switch_to, next_proc}
use stable_genius.Sched.Order.{SortedFrom, choose-some, ready, behind}

-- The invariant of the table: its keys rise and are PIDs, the current process is in it, and no
-- other process is active.
pub record OneActive (current : ℕ) (t : ProcTable) : Type 0 where
  pub sorted : SortedFrom 0 t.tab
  pub pids : (q : ℕ) → has q t.tab ≡ true → q < max_pid
  pub here : has current t.tab ≡ true
  pub only : (x : ℕ) (p : Process) → lookup x t.tab ≡ some p → is_active p.stat ≡ true → x ≡ current

-- Writing an entry that is there keeps the order.
insert-SortedFrom :
    (low k : ℕ) (p : Process) (m : Map Process)
    → SortedFrom low m
    → low ≤ k
    → SortedFrom low (insert k p m)
unfolding insert
insert-SortedFrom low k p [] s h = (h, tt)
insert-SortedFrom low k p ((j, q) ∷ m) s h =
    let rest = λ (a : suc j ≤ k). insert-SortedFrom (suc j) k p m s.1 a in
    elim (Bool-cases (ltb j k)) [
      | inl above ↦ rw above (s.0, rest (ground (arith, above)))
      | inr low' ↦ elim (Bool-cases (j == k)) [
        | inl same ↦ let e : j ≡ k = ground (arith, same) in rw (low', same) (h, rw (← e) s.1)
        | inr above ↦ rw (low', above) (h, (ground (arith, low', above), s.1))
      ]
    ]

-- A change of the statuses of a table: the same processes, in the same order.
record SameKeys (t u : ProcTable) : Type 0 where
  order : SortedFrom 0 t.tab → SortedFrom 0 u.tab
  keys : (x : ℕ) → has x u.tab ≡ has x t.tab

insert-SameKeys :
    (pid : ℕ) (p q : Process) (t : ProcTable)
    → lookup pid t.tab ≡ some p
    → SameKeys t (record t { tab = insert pid q t.tab })
insert-SameKeys pid p q t here = record {
  order = λ s. insert-SortedFrom 0 pid q t.tab s (omega arith);
  keys = λ x. ground (arith, lookup-insert pid x q t.tab, here);
}

module _ (pid : ℕ) (t u : ProcTable) (e : swap_out pid t ≡ some u) where
  swap_out-SameKeys : SameKeys t u
  unfolding swap_out
  swap_out-SameKeys = elim (Option-cases (lookup pid t.tab)) [
    | inl gone ↦ absurd (ground (arith, e, gone))
    | inr (p, here) ↦
        let q : Process = record p { stat = runnable } in
        elim (Bool-cases (is_active p.stat)) [
          | inl now ↦
              let same : u ≡ record t { tab = insert pid q t.tab } = ground (arith, e, here, now) in
              rw same (insert-SameKeys pid p q t here)
          | inr rests ↦
              let same : u ≡ t = ground (arith, e, here, rests) in
              rw same (record { order = λ s. s; keys = λ x. refl })
        ]
  ]

  -- The process that is swapped out is not active afterwards; the others stay as they are.
  swap_out-active :
      (x : ℕ) (p : Process)
      → lookup x u.tab ≡ some p
      → is_active p.stat ≡ true
      → (lookup x t.tab ≡ some p) × ((x == pid) ≡ false)
  unfolding swap_out
  swap_out-active x p at now = elim (Option-cases (lookup pid t.tab)) [
    | inl gone ↦ absurd (ground (arith, e, gone))
    | inr (q, here) ↦
        let written = lookup-insert pid x (record q { stat = runnable }) t.tab in
        ground (arith, e, here, at, now, written)
  ]

module _ (pid : ℕ) (t u : ProcTable) (e : swap_in pid t ≡ some u) where
  swap_in-SameKeys : SameKeys t u
  unfolding swap_in
  swap_in-SameKeys = elim (Option-cases (lookup pid t.tab)) [
    | inl gone ↦ absurd (ground (arith, e, gone))
    | inr (p, here) ↦
        let q : Process = record p { stat = active } in
        let same : u ≡ record t { tab = insert pid q t.tab } = ground (arith, e, here) in
        rw same (insert-SameKeys pid p q t here)
  ]

  -- The process that is swapped in is active afterwards; the others stay as they are.
  swap_in-active :
      (x : ℕ) (p : Process)
      → lookup x u.tab ≡ some p
      → is_active p.stat ≡ true
      → (x ≡ pid) ⊎ (lookup x t.tab ≡ some p)
  unfolding swap_in
  swap_in-active x p at now = elim (Option-cases (lookup pid t.tab)) [
    | inl gone ↦ absurd (ground (arith, e, gone))
    | inr (q, here) ↦
        let written = lookup-insert pid x (record q { stat = active }) t.tab in
        elim (Bool-cases (pid == x)) [
          | inl same ↦ inl (ground (arith, same))
          | inr other ↦ inr (ground (arith, e, here, at, written, other))
        ]
  ]

  swap_in-now : (p : Process) × (lookup pid u.tab ≡ some p) × (is_active p.stat ≡ true)
  unfolding swap_in
  swap_in-now = elim (Option-cases (lookup pid t.tab)) [
    | inl gone ↦ absurd (ground (arith, e, gone))
    | inr (q, here) ↦ (
      record q { stat = active },
      ground (arith, e, here, lookup-insert pid pid (record q { stat = active }) t.tab),
      refl,
    )
  ]

-- What `next_proc` owes to a table of the invariant.
abbrev pub Turned : ℕ → ProcTable → ℕ → ProcTable → Type 0
Turned current t next u =
    OneActive next u
    × ((p : Process) × (lookup next u.tab ≡ some p) × (is_active p.stat ≡ true))
    × ((x : ℕ) → has x u.tab ≡ has x t.tab)
    × ((x : ℕ) → ready x t.tab ≡ true → behind current next ≤ behind current x)

module _ (current : ℕ) (t u : ProcTable) (v : OneActive current t) (c : ℕ) (p : Process)
    (chosen : choose current t.tab ≡ some (c, p)) where
  swaps-Turned :
      (w : ProcTable) → swap_out current t ≡ some w → swap_in c w ≡ some u → Turned current t c u
  swaps-Turned w out back =
      let (at, may, near) = choose-some current t.tab v.sorted v.here c p v.pids chosen in
      let k = swap_out-SameKeys current t w out in
      let l = swap_in-SameKeys c w u back in
      let keys = λ (x : ℕ). l.keys x ∙ k.keys x in
      (
        record {
          sorted = l.order (k.order v.sorted);
          pids = λ q h. v.pids q (sym (keys q) ∙ h);
          here = keys c ∙ ground (arith, at);
          only = λ x q there now. elim (swap_in-active c w u back x q there now) [
            | inl same ↦ same
            | inr before ↦
                let (old, other) = swap_out-active current t w out x q before now in
                absurd (ground (arith, v.only x q old now, other))
          ];
        },
        swap_in-now c w u back,
        keys,
        near,
      )

  stays-Turned : is_active p.stat ≡ true → Turned current t current t
  stays-Turned now =
      let (at, may, near) = choose-some current t.tab v.sorted v.here c p v.pids chosen in
      let same = v.only c p at now in
      (v, (p, rw same at at, now), λ x. refl, λ x h. rw same at (near x h))

module _ (current next : ℕ) (t u : ProcTable) (v : OneActive current t) where
  switch_to-Turned :
      (c : ℕ) (p : Process)
      → choose current t.tab ≡ some (c, p)
      → switch_to current (some (c, p)) t ≡ some (u, next)
      → Turned current t next u
  unfolding switch_to
  switch_to-Turned c p chosen e = elim (Bool-cases (is_active p.stat)) [
    | inl now ↦
        let same : t ≡ u = ground (arith, e, now) in
        let same' : current ≡ next = ground (arith, e, now) in
        rw (← same, ← same') (stays-Turned current t u v c p chosen now)
    | inr rests ↦ elim (Option-cases (swap_out current t)) [
      | inl gone ↦ absurd (ground (arith, e, rests, gone))
      | inr (w, out) ↦ elim (Option-cases (swap_in c w)) [
        | inl gone ↦ absurd (ground (arith, e, rests, out, gone))
        | inr (u', back) ↦
            let same : u' ≡ u = ground (arith, e, rests, out, back) in
            let same' : c ≡ next = ground (arith, e, rests, out, back) in
            rw (← same, ← same') (swaps-Turned current t u' v c p chosen w out back)
      ]
    ]
  ]

  -- Every turn of the round robin keeps this: the keys of the table rise and are PIDs, the current
  -- process is in it, and none but the current one is active. After the turn the current process is
  -- active, the processes of the table are the same, and none of those that were ready comes sooner
  -- behind the old current process in the cyclic order of the PIDs.
  pub next_proc-Turned : next_proc current t ≡ some (u, next) → Turned current t next u
  unfolding next_proc switch_to
  next_proc-Turned e = elim (Option-cases (choose current t.tab)) [
    | inl gone ↦ absurd (ground (arith, e, gone))
    | inr ((c, p), found) ↦ switch_to-Turned c p found (rw found at e)
  ]
