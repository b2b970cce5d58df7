-- ===== src/Signals/Poll/Notify.antt =====
-- A device's notice reaches every request that waits for it.
use stable_genius.Common.{
  ℕ, zero, suc, ◌/◌, ◌≤◌, ◌≡◌, ◌≢◌, refl, true, false, Option, none, some, List, [], ◌∷◌, ◌==◌,
  if◌then◌else◌, arith, Bool-cases, Option-cases, inl, inr, ◌∙◌, sym,
}
use mathlib.Core.List.{Memᴰ}
use stable_genius.Common.Maps.{lookup}
use stable_genius.Files.{get_dev}
use stable_genius.Procs.{Process, runnable}
use stable_genius.Signals.{SignalManager, PollFd, PollEvent, is_sleeping}
use stable_genius.Signals.Status.{lookup-wake_any}
use stable_genius.Signals.Poll.{
  device_matches, matches, fire, notify_one, notify_each, notify_file, set_revents, fd_key,
  has_fired,
}
use Prim.Native.Nat.{max, bit_and, bit_or, bit_or-bitwise, digits}

or_digits : ℕ → ℕ → ℕ → ℕ
or_digits n a b = digits (λ b. b) max n a b

-- A mask that is not empty stays so under `|=`.
or_digits-zero : (n a b : ℕ) → a ≤ n → or_digits n a b ≡ 0 → b ≡ 0
unfolding or_digits
or_digits-zero zero zero b h e = e
or_digits-zero zero (suc a) b h e = absurd (omega arith)
or_digits-zero (suc n) zero b h e = e
or_digits-zero (suc n) (suc a) b h e =
    let high = or_digits-zero n (suc a / 2) (b / 2) (omega arith) (omega (arith, e)) in
    omega (arith, e, high)

bit_or-ne-zero : (a b : ℕ) → b ≢ 0 → bit_or a b ≢ 0
bit_or-ne-zero a b h e =
    h (or_digits-zero a a b (omega arith) (unfold or_digits in sym (bit_or-bitwise a b) ∙ e))

-- Processes keep their descriptors, and requests what they ask for, all through the loop; no
-- process falls asleep, and no event that has fired is lost.
record Kept (s t : SignalManager) : Type 0 where
  files : t.file_table ≡ s.file_table
  asks : (a : ℕ) → ((t.fds a).fd ≡ (s.fds a).fd) × ((t.fds a).events ≡ (s.fds a).events)
  fired : (a : ℕ) → (s.fds a).revents ≢ 0 → (t.fds a).revents ≢ 0
  alive :
      (x : ℕ) (p : Process)
      → lookup x s.pt.tab ≡ some p
      → (p' : Process) × (lookup x t.pt.tab ≡ some p')
        × (p'.file_desc ≡ p.file_desc)
        × (is_sleeping p.stat ≡ false → is_sleeping p'.stat ≡ false)

Kept-refl : (s : SignalManager) → Kept s s
Kept-refl s = record {
  files = refl;
  asks = λ a. (refl, refl);
  fired = λ a h. h;
  alive = λ x p e. (p, e, refl, λ h. h);
}

Kept-trans : {s t u : SignalManager} → Kept s t → Kept t u → Kept s u
Kept-trans k l = record {
  files = l.files ∙ k.files;
  asks = λ a. ((l.asks a).0 ∙ (k.asks a).0, (l.asks a).1 ∙ (k.asks a).1);
  fired = λ a h. l.fired a (k.fired a h);
  alive = λ x p e.
      let (p', e', d, up) = k.alive x p e in
      let (q, f, d', up') = l.alive x p' e' in (q, f, d' ∙ d, λ h. up' (up h));
}

fire-Kept :
    (ev : ℕ) (e : PollEvent) (s : SignalManager)
    → bit_and (s.fds e.req).events ev ≢ 0
    → Kept s (fire ev e s)
unfolding fire set_revents
fire-Kept ev e s ne = record {
  files = refl;
  asks = λ a. (ground arith, ground arith);
  fired = λ a h.
      let new = bit_or-ne-zero (s.fds e.req).revents (bit_and (s.fds e.req).events ev) ne in
      ground (arith, h, new);
  alive = λ x p here.
      let up = lookup-wake_any e.pid s.pt x in
      elim (Bool-cases (e.pid == x)) [
        | inl same ↦ (
          if is_sleeping p.stat then record p { stat = runnable } else p,
          ground (arith, up, here, same),
          ground arith,
          λ awake. ground (arith, awake),
        )
        | inr other ↦ (p, ground (arith, up, here, other), refl, λ awake. awake)
      ];
}

fire_lem :
    (ev : ℕ) (e : PollEvent) (s : SignalManager) (p : Process)
    → bit_and (s.fds e.req).events ev ≢ 0
    → lookup e.pid s.pt.tab ≡ some p
    → (has_fired (fire ev e s) e ≡ true)
      × (p' : Process) × (lookup e.pid (fire ev e s).pt.tab ≡ some p')
      × (is_sleeping p'.stat ≡ false)
unfolding fire set_revents
fire_lem ev e s p ne here =
    let new = bit_or-ne-zero (s.fds e.req).revents (bit_and (s.fds e.req).events ev) ne in
    (
      ground (arith, new),
      if is_sleeping p.stat then record p { stat = runnable } else p,
      ground (arith, lookup-wake_any e.pid s.pt e.pid, here),
      ground arith,
    )

matches-mask :
    (dev ev : ℕ) (p : Process) (r : PollFd) (s : SignalManager)
    → matches dev ev p r s ≡ true
    → bit_and r.events ev ≢ 0
unfolding matches
matches-mask dev ev p r s h z =
    elim (Option-cases (get_dev (fd_key r.fd p.file_desc) s.file_table)) [
      | inl gone ↦ ground (arith, h, gone)
      | inr (d, found) ↦ ground (arith, h, z, found)
    ]

matches-Kept :
    (dev ev : ℕ) (p q : Process) (a : ℕ) {s t : SignalManager}
    → Kept s t
    → q.file_desc ≡ p.file_desc
    → matches dev ev q (t.fds a) t ≡ matches dev ev p (s.fds a) s
unfolding matches
matches-Kept dev ev p q a {s} {t} k d = λ i.
    device_matches dev ev ((k.asks a).1 i) (get_dev (fd_key ((k.asks a).0 i) (d i)) (k.files i))

notify_one-Kept :
    (dev ev : ℕ) (e : PollEvent) (p : Option Process) (s : SignalManager)
    → Kept s (notify_one dev ev e p s).1
unfolding notify_one
notify_one-Kept dev ev e none s = Kept-refl s
notify_one-Kept dev ev e (some p) s = elim (Bool-cases (matches dev ev p (s.fds e.req) s)) [
  | inl hit ↦ rw hit (fire-Kept ev e s (matches-mask dev ev p (s.fds e.req) s hit))
  | inr miss ↦ rw miss (Kept-refl s)
]

notify_each-Kept :
    (dev ev : ℕ) (es : List PollEvent) (s : SignalManager) → Kept s (notify_each dev ev es s).1
unfolding notify_each
notify_each-Kept dev ev [] s = Kept-refl s
notify_each-Kept dev ev (e ∷ es) s =
    let s1 = (notify_one dev ev e (lookup e.pid s.pt.tab) s).1 in
    Kept-trans (notify_one-Kept dev ev e (lookup e.pid s.pt.tab) s) (notify_each-Kept dev ev es s1)

-- What `notify_file` owes to an event of the list: its request has fired, and its process is awake.
abbrev Reached : SignalManager → PollEvent → Type 0
Reached t e =
    (has_fired t e ≡ true)
    × (p : Process) × (lookup e.pid t.pt.tab ≡ some p)
    × (is_sleeping p.stat ≡ false)

Reached-Kept : (e : PollEvent) {t u : SignalManager} → Kept t u → Reached t e → Reached u e
Reached-Kept e {t} {u} k (hit, p, here, awake) =
    let (q, there, d, up) = k.alive e.pid p here in
    (ground (arith, k.fired e.req, hit), q, there, up awake)

module _ (dev ev : ℕ) where
  notify_one-Reached :
      (e : PollEvent) (p : Process) (s : SignalManager)
      → lookup e.pid s.pt.tab ≡ some p
      → matches dev ev p (s.fds e.req) s ≡ true
      → Reached (notify_one dev ev e (lookup e.pid s.pt.tab) s).1 e
  unfolding notify_one
  notify_one-Reached e p s here hit =
      rw (here, hit) (fire_lem ev e s p (matches-mask dev ev p (s.fds e.req) s hit) here)

  notify_each-Reached :
      (e : PollEvent) (p : Process) (es : List PollEvent) (s : SignalManager)
      → Memᴰ e es
      → lookup e.pid s.pt.tab ≡ some p
      → matches dev ev p (s.fds e.req) s ≡ true
      → Reached (notify_each dev ev es s).1 e
  unfolding notify_each
  notify_each-Reached e p [] s m here hit = elim m [ ]
  notify_each-Reached e p (x ∷ es) s (Memᴰ.head same) here hit =
      let s1 = (notify_one dev ev e (lookup e.pid s.pt.tab) s).1 in
      rw (sym same)
        (Reached-Kept e (notify_each-Kept dev ev es s1) (notify_one-Reached e p s here hit))
  notify_each-Reached e p (x ∷ es) s (Memᴰ.tail m) here hit =
      let s1 = (notify_one dev ev x (lookup x.pid s.pt.tab) s).1 in
      let k = notify_one-Kept dev ev x (lookup x.pid s.pt.tab) s in
      let (q, there, d, up) = k.alive e.pid p here in
      notify_each-Reached e q es s1 m there (matches-Kept dev ev p q e.req k d ∙ hit)

  -- When a device gives notice of events, every request that is pending for one of them, of a process
  -- that exists, has fired afterwards, and its process does not sleep.
  pub notify_file-fires :
      (e : PollEvent) (p : Process) (s : SignalManager)
      → Memᴰ e s.pending_polls
      → lookup e.pid s.pt.tab ≡ some p
      → matches dev ev p (s.fds e.req) s ≡ true
      → let t = notify_file dev ev s in
        (has_fired t e ≡ true)
        × (p' : Process) × (lookup e.pid t.pt.tab ≡ some p')
        × (is_sleeping p'.stat ≡ false)
  unfolding notify_file
  notify_file-fires e p s m here hit = notify_each-Reached e p s.pending_polls s m here hit
