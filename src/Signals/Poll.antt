-- ===== src/Signals/Poll.antt =====
-- `poll`, `notify_file` and `tick_down` of kernel/cpp/SignalManager.cpp: a process sleeps until a
-- file is ready or a time is over. `poll_check` of a device is a parameter, from the device and the
-- events asked for to those that are true.
pub mod NoPending
pub mod Notify
pub mod Ticks
use stable_genius.Common.{
  ℕ, zero, suc, ◌+◌, ◌-◌, ◌*◌, Bool, true, false, Option, none, some, List, [], ◌∷◌, ◌++◌, ◌==◌,
  leb, ◌&&◌, ◌||◌, not, if◌then◌else◌,
}
use stable_genius.Common.Maps.{lookup, has}
use stable_genius.Common.Int.{ℤ, pos, negsuc, minus_one, sub_int}
use stable_genius.Files.{Descriptors, get_fd_key, get_dev}
use stable_genius.Procs.{Process, ProcTable, ProcStatus, sleeping}
use stable_genius.Signals.{
  SignalManager, PollFd, PollEvent, Outcome, returned, asleep, set_status, wake, purge_polls,
}
use Prim.Native.Nat.{bit_and, bit_or}

abbrev pub pollnone : ℕ
pollnone = 0

abbrev pub pollrequestable : ℕ
pollrequestable = 7

abbrev pub pollnval : ℕ
pollnval = 0x20

-- The bytes of a `pollfd`
abbrev pub sizeof_pollfd : ℕ
sizeof_pollfd = 12

abbrev pub fd_key : ℤ → Descriptors → ℕ
fd_key (pos fd) fds = get_fd_key fd fds
fd_key (negsuc n) fds = 0

unfoldable pub set_revents : ℕ → ℕ → (ℕ → PollFd) → ℕ → PollFd
set_revents req ev fds a = if a == req then record (fds req) { revents = ev } else fds a

-- The state in the loop of `poll`, with its two counts.
pub record Polling : Type 0 where
  pub state : SignalManager
  pub ret_count : ℕ
  pub found_count : ℕ

-- The events of a request that are true already.
unfoldable pub ready_events : (ℕ → ℕ → ℕ) → Process → PollFd → SignalManager → ℕ
ready_events poll_check active r s = elim (get_dev (fd_key r.fd active.file_desc) s.file_table) [
  | none ↦ r.events
  | some dev ↦ poll_check dev (bit_and r.events pollrequestable)
]

-- A round of the loop, at the request with address `req`.
unfoldable pub poll_one : (ℕ → ℕ → ℕ) → Process → (pid req : ℕ) → ℤ → Polling → Polling
poll_one poll_check active pid req timeout c =
    let s = c.state in
    let r = s.fds req in
    if fd_key r.fd active.file_desc == 0 || bit_and r.events pollrequestable == pollnone
    then record c { state = record s { fds = set_revents req pollnval s.fds } }
    else (let fds = set_revents req pollnone s.fds in
        let mask = ready_events poll_check active r s in
        let event : PollEvent = record { req = req; time_left = timeout; pid = pid } in
        if mask == pollnone
        then record c {
          state = record s { fds = fds; pending_polls = s.pending_polls ++ event ∷ [] };
          found_count = c.found_count + 1;
        }
        else record c {
          state = record s { fds = set_revents req (bit_or pollnone mask) fds };
          ret_count = c.ret_count + 1;
        })

-- The loop over the requests, from the one at `req`.
unfoldable pub poll_scan : (ℕ → ℕ → ℕ) → Process → (rounds pid req : ℕ) → ℤ → Polling → Polling
poll_scan poll_check active zero pid req timeout c = c
poll_scan poll_check active (suc n) pid req timeout c =
    poll_scan poll_check active n pid (req + sizeof_pollfd) timeout
      (poll_one poll_check active pid req timeout c)

-- The events of a process that are pending, those that have not fired, and those that have.
abbrev pub has_fired : SignalManager → PollEvent → Bool
has_fired s e = not ((s.fds e.req).revents == pollnone)

unfoldable pub count_waiting : ℕ → SignalManager → List PollEvent → ℕ
count_waiting pid s [] = 0
count_waiting pid s (e ∷ es) =
    (if e.pid == pid && not (has_fired s e) then 1 else 0) + count_waiting pid s es

unfoldable pub count_fired : ℕ → SignalManager → List PollEvent → ℕ
count_fired pid s [] = 0
count_fired pid s (e ∷ es) = (if e.pid == pid && has_fired s e then 1 else 0) + count_fired pid s es

-- `poll` behind the loop, to its return or to the yield. Interrupts may fire events in between.
unfoldable pub poll_decide : ℕ → Polling → Outcome
poll_decide pid c =
    let s = c.state in
    let pid_count = count_waiting pid s s.pending_polls in
    if c.found_count == 0 && c.ret_count == 0
    then returned minus_one (record s { switch_blocked = false })
    else if not (c.ret_count == 0) || not (c.found_count == pid_count)
    then returned (sub_int (c.ret_count + c.found_count) pid_count)
        (record s { pending_polls = purge_polls pid s.pending_polls; switch_blocked = false })
    else asleep (record s { pt = set_status pid sleeping s.pt; switch_blocked = false })

-- `poll`, with no interrupt between the loop and the yield.
unfoldable pub poll_as : (ℕ → ℕ → ℕ) → (fds nfds : ℕ) → ℤ → Option Process → SignalManager → Outcome
poll_as poll_check fds nfds timeout none s = returned minus_one s
poll_as poll_check fds nfds timeout (some active) s = poll_decide s.current_proc (
    poll_scan poll_check active nfds s.current_proc fds timeout
      (record { state = s; ret_count = 0; found_count = 0 }))

abbrev pub is_zero : ℤ → Bool
is_zero (pos n) = n == 0
is_zero (negsuc n) = false

unfoldable pub poll : (ℕ → ℕ → ℕ) → (fds nfds : ℕ) → ℤ → SignalManager → Outcome
poll poll_check fds nfds timeout s =
    if nfds == 0 || fds == 0
    then returned minus_one s
    else if is_zero timeout
    then returned (pos 0) s
    else poll_as poll_check fds nfds timeout (lookup s.current_proc s.pt.tab)
        (record s { switch_blocked = true })

-- `poll` from the yield on, when process `pid` has time again
pub poll_resume : ℕ → SignalManager → Outcome
poll_resume pid s =
    returned (pos (count_fired pid s s.pending_polls))
      (record s { pending_polls = purge_polls pid s.pending_polls; switch_blocked = false })

-- Whether a request, of a process with the given descriptors, asks for the event of the device.
abbrev pub device_matches : (dev ev events : ℕ) → Option ℕ → Bool
device_matches dev ev events none = false
device_matches dev ev events (some d) = d == dev && not (bit_and events ev == pollnone)

unfoldable pub matches : (dev ev : ℕ) → Process → PollFd → SignalManager → Bool
matches dev ev p r s =
    device_matches dev ev r.events (get_dev (fd_key r.fd p.file_desc) s.file_table)

pub fire : (ev : ℕ) → PollEvent → SignalManager → SignalManager
fire ev e s =
    let r = s.fds e.req in
    record s {
      fds = set_revents e.req (bit_or r.revents (bit_and r.events ev)) s.fds;
      pt = wake e.pid s.pt;
    }

-- A round of `notify_file`; an event whose process does not exist goes.
pub notify_one :
    (dev ev : ℕ) → PollEvent → Option Process → SignalManager → Option PollEvent × SignalManager
notify_one dev ev e none s = (none, s)
notify_one dev ev e (some p) s =
    (some e, if matches dev ev p (s.fds e.req) s then fire ev e s else s)

abbrev pub keep : Option PollEvent → List PollEvent → List PollEvent
keep none es = es
keep (some e) es = e ∷ es

-- The loop of `notify_file`: the events that stay, and the state.
pub notify_each : (dev ev : ℕ) → List PollEvent → SignalManager → List PollEvent × SignalManager
notify_each dev ev [] s = ([], s)
notify_each dev ev (e ∷ es) s =
    let (kept, s1) = notify_one dev ev e (lookup e.pid s.pt.tab) s in
    let (rest, s2) = notify_each dev ev es s1 in (keep kept rest, s2)

pub notify_file : (dev ev : ℕ) → SignalManager → SignalManager
notify_file dev ev s =
    let (events, t) = notify_each dev ev s.pending_polls s in
    record t { pending_polls = events; switch_blocked = false }

-- A round of `tick_down`; an event whose time is over goes if its process does not exist.
pub tick_one : (tick_size : ℕ) → PollEvent → ProcTable → Option PollEvent × ProcTable
tick_one tick e t = elim e.time_left [
  | negsuc n ↦ (some e, t)
  | pos n ↦
      let e' : PollEvent = record e { time_left = sub_int n tick } in
      if leb n tick
      then (if has e.pid t.tab then (some e', wake e.pid t) else (none, t))
      else (some e', t)
]

-- The loop of `tick_down`: the events that stay, and the process table.
pub tick_each : (tick_size : ℕ) → List PollEvent → ProcTable → List PollEvent × ProcTable
tick_each tick [] t = ([], t)
tick_each tick (e ∷ es) t =
    let (kept, t1) = tick_one tick e t in
    let (rest, t2) = tick_each tick es t1 in (keep kept rest, t2)

pub tick_down : ℕ → SignalManager → SignalManager
tick_down tick_size s =
    let (events, t) = tick_each tick_size s.pending_polls s.pt in
    record s { pending_polls = events; pt = t; switch_blocked = false }
