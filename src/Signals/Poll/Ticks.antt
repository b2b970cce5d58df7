-- ===== src/Signals/Poll/Ticks.antt =====
-- Time-outs: which ticks wake a process, and the tick that is lost.
use stable_genius.Common.{
  ℕ, zero, suc, ◌≡◌, refl, Bool, true, false, some, List, [], ◌∷◌, ◌==◌, leb, ltb, if◌then◌else◌,
  arith, not, ◌&&◌, ◌||◌,
}
use stable_genius.Common.Maps.{lookup}
use stable_genius.Common.Int.{ℤ, pos, negsuc}
use stable_genius.Procs.{Process, ProcTable, sleeping, runnable}
use stable_genius.Signals.{SignalManager, PollEvent, set_status, is_sleeping}
use stable_genius.Signals.Status.{lookup-set_status, lookup-wake_any}
use stable_genius.Signals.Poll.{tick_one, keep, tick_each, tick_down}

-- Whether a tick ends the time of an event, and whether no tick ever will.
abbrev pub ends : ℕ → ℤ → Bool
ends tick (pos n) = leb n tick
ends tick (negsuc n) = false

abbrev pub is_negative : ℤ → Bool
is_negative (pos n) = false
is_negative (negsuc n) = true

-- Whether the time of some event of the process ends at a tick, and whether none ever will.
unfoldable pub some_ends : ℕ → ℕ → List PollEvent → Bool
some_ends tick pid [] = false
some_ends tick pid (e ∷ es) = e.pid == pid && ends tick e.time_left || some_ends tick pid es

unfoldable pub none_left : ℕ → List PollEvent → Bool
none_left pid [] = true
none_left pid (e ∷ es) = (not (e.pid == pid) || is_negative e.time_left) && none_left pid es

abbrev pub woken : Process → Process
woken p = if is_sleeping p.stat then record p { stat = runnable } else p

-- A round wakes the process of its event, if the time of that ends.
tick_one-lookup :
    (tick pid : ℕ) (e : PollEvent) (t : ProcTable) (p : Process)
    → lookup pid t.tab ≡ some p
    → lookup pid (tick_one tick e t).1.tab
      ≡ some (if e.pid == pid && ends tick e.time_left then woken p else p)
unfolding tick_one
tick_one-lookup tick pid e t p here = ground (arith, here, lookup-wake_any e.pid t pid)

tick_each-lookup :
    (tick pid : ℕ) (es : List PollEvent) (t : ProcTable) (p : Process)
    → lookup pid t.tab ≡ some p
    → lookup pid (tick_each tick es t).1.tab ≡ some (if some_ends tick pid es then woken p else p)
unfolding tick_each some_ends
tick_each-lookup tick pid [] t p here = here
tick_each-lookup tick pid (e ∷ es) t p here =
    let hit : Bool = e.pid == pid && ends tick e.time_left in
    let p' : Process = if hit then woken p else p in
    let rest =
      tick_each-lookup tick pid es (tick_one tick e t).1 p' (tick_one-lookup tick pid e t p here) in
    ground (arith, rest)

-- A tick wakes exactly the sleeping processes that have an event whose time it ends, and leaves every
-- other process of the table as it was. An event whose time is negative never ends.
pub tick_down-lookup :
    (tick pid : ℕ) (s : SignalManager) (p : Process)
    → lookup pid s.pt.tab ≡ some p
    → lookup pid (tick_down tick s).pt.tab
      ≡ some (if some_ends tick pid s.pending_polls then woken p else p)
unfolding tick_down
tick_down-lookup tick pid s p here = tick_each-lookup tick pid s.pending_polls s.pt p here

-- Whether a tick passes over the time of each event of the process.
abbrev passes : ℕ → ℤ → Bool
passes tick (pos n) = ltb n tick
passes tick (negsuc n) = true

unfoldable pub all_pass : ℕ → ℕ → List PollEvent → Bool
all_pass tick pid [] = true
all_pass tick pid (e ∷ es) = (not (e.pid == pid) || passes tick e.time_left) && all_pass tick pid es

tick_one-none_left :
    (tick pid : ℕ) (e : PollEvent) (t : ProcTable) (rest : List PollEvent)
    → (not (e.pid == pid) || passes tick e.time_left) ≡ true
    → none_left pid rest ≡ true
    → none_left pid (keep (tick_one tick e t).0 rest) ≡ true
unfolding tick_one none_left
tick_one-none_left tick pid e t rest h r = ground (arith, h, r)

tick_each-none_left :
    (tick pid : ℕ) (es : List PollEvent) (t : ProcTable)
    → all_pass tick pid es ≡ true
    → none_left pid (tick_each tick es t).0 ≡ true
unfolding tick_each all_pass
tick_each-none_left tick pid [] t h = unfold none_left in refl
tick_each-none_left tick pid (e ∷ es) t h =
    tick_one-none_left tick pid e t _ (ground (arith, h))
      (tick_each-none_left tick pid es (tick_one tick e t).1 (ground (arith, h)))

all_pass_of_none_left :
    (tick pid : ℕ) (es : List PollEvent) → none_left pid es ≡ true → all_pass tick pid es ≡ true
unfolding all_pass none_left
all_pass_of_none_left tick pid [] h = refl
all_pass_of_none_left tick pid (e ∷ es) h = ground (arith, h, all_pass_of_none_left tick pid es)

none_left-some_ends :
    (tick pid : ℕ) (es : List PollEvent) → none_left pid es ≡ true → some_ends tick pid es ≡ false
unfolding some_ends none_left
none_left-some_ends tick pid [] h = refl
none_left-some_ends tick pid (e ∷ es) h = ground (arith, h, none_left-some_ends tick pid es)

unfoldable pub ticks : (rounds tick_size : ℕ) → SignalManager → SignalManager
ticks zero tick s = s
ticks (suc n) tick s = ticks n tick (tick_down tick s)

ticks-none_left :
    (n tick pid : ℕ) (s : SignalManager) (p : Process)
    → lookup pid s.pt.tab ≡ some p
    → none_left pid s.pending_polls ≡ true
    → lookup pid (ticks n tick s).pt.tab ≡ some p
unfolding ticks
ticks-none_left zero tick pid s p here none' = here
ticks-none_left (suc n) tick pid s p here none' =
    let same = tick_down-lookup tick pid s p here in
    let never = none_left-some_ends tick pid s.pending_polls none' in
    let pass = all_pass_of_none_left tick pid s.pending_polls none' in
    let left = tick_each-none_left tick pid s.pending_polls s.pt pass in
    ticks-none_left n tick pid (tick_down tick s) p (ground (arith, same, never))
      (unfold tick_down in left)

-- A time-out can be lost. If a tick takes the time of every pending event of a process past 0 before
-- `poll` has put the process to sleep, then no later tick wakes the process, however many there are.
ticks-lost :
    (n tick pid : ℕ) (s : SignalManager) (p : Process)
    → lookup pid s.pt.tab ≡ some p
    → is_sleeping p.stat ≡ false
    → all_pass tick pid s.pending_polls ≡ true
    → let t = tick_down tick s in
      lookup pid (ticks n tick (record t { pt = set_status pid sleeping t.pt })).pt.tab
      ≡ some (record p { stat = sleeping })
ticks-lost n tick pid s p here awake pass =
    let t = tick_down tick s in
    let here' : lookup pid t.pt.tab ≡ some p =
      ground (arith, tick_down-lookup tick pid s p here, awake) in
    let slept = lookup-set_status pid t.pt p here' sleeping pid in
    let left = tick_each-none_left tick pid s.pending_polls s.pt pass in
    ticks-none_left n tick pid (record t { pt = set_status pid sleeping t.pt })
      (record p { stat = sleeping }) (ground (arith, slept)) (unfold tick_down in left)
