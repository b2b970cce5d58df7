-- ===== src/Tests/Events.antt =====
-- The signal manager and a terminal at concrete states.
use stable_genius.Tty.{Tty, find_newline}
use stable_genius.Tty.Lines
use stable_genius.Tty.Lines.{IsLined, Event, typed, asked, all_typed, run}
use stable_genius.Common.{
  ℕ, ◌≡◌, ◌≢◌, ◌⊎◌, refl, true, false, none, some, List, [], ◌∷◌, ◌++◌, if◌then◌else◌,
}
use mathlib.Core.List.{Memᴰ}
use stable_genius.Common.Maps.{lookup}
use stable_genius.Common.Int.{pos, negsuc, minus_one}
use stable_genius.Files.{get_fd_key, get_dev, FileDescription}
use stable_genius.Procs.{Process, active, runnable, sleeping}
use stable_genius.Signals.{SignalManager, PollEvent, returned, asleep, left_by, member, is_sleeping}
use stable_genius.Signals.Wait.{
  waitpid, waitpid_resume, notify_wait, waited, wait_as, wait_for, wait_or_take, take_event,
  notify_with, answer,
}
use stable_genius.Signals.Wait.NoMissed
use stable_genius.Signals.Wait.NoMissed.{happened, awaited, Step, notifies, NoMissed}
use stable_genius.Signals.Wait.Answer
use stable_genius.Signals.Wait.Place.{requested}
use stable_genius.Signals.Wait.Meanwhile.{done, others}
use stable_genius.Signals.Poll.{
  poll, poll_resume, poll_as, poll_scan, poll_one, poll_decide, matches, notify_file, has_fired,
  tick_down,
}
use stable_genius.Signals.Poll.NoPending
use stable_genius.Signals.Poll.NoPending.{pending}
use stable_genius.Signals.Poll.Notify
use stable_genius.Signals.Poll.Ticks
use stable_genius.Signals.Poll.Ticks.{ticks, some_ends, all_pass, woken}

abbrev parent : Process
parent = record {
  stat = active;
  ret_val = 0;
  parent_pid = 1;
  child_pids = 2 ∷ [];
  file_desc = (0, 1) ∷ [];
}

abbrev child : Process
child = record {
  stat = sleeping;
  ret_val = 7;
  parent_pid = 1;
  child_pids = [];
  file_desc = (0, 1) ∷ [];
}

abbrev console : FileDescription
console = record { name = 5; count = 2; dev = some 9 }

-- The child waits for input of the console, of which 10 milliseconds are left.
abbrev reading : PollEvent
reading = record { req = 400; time_left = pos 10; pid = 2 }

abbrev quiet : SignalManager
quiet = record {
  pt = record { tab = (1, parent) ∷ (2, child) ∷ []; last_pid = 2 };
  file_table = (1, console) ∷ [];
  current_proc = 1;
  switch_blocked = false;
  user = λ p a. 0;
  fds = λ a. record { fd = pos 0; events = 1; revents = 0 };
  pending_polls = reading ∷ [];
  pending_waits = [];
  happened_waits = [];
}

abbrev slept : SignalManager
slept = left_by quiet (waitpid minus_one 100 0 quiet)

sleeps : waitpid minus_one 100 0 quiet ≡ asleep slept
unfolding waitpid wait_as wait_for wait_or_take take_event waited lookup
sleeps = refl

-- While the parent sleeps the child gets time, and leaves 9 as its status; behind the notice the parent has time.
abbrev ended : Process
ended = record child { ret_val = 9 }

abbrev child_ended : SignalManager
child_ended = record slept {
  pt = record slept.pt { tab = (1, record parent { stat = sleeping }) ∷ (2, ended) ∷ [] };
  current_proc = 2;
}

abbrev parent_turn : SignalManager
parent_turn = record (Answer.after_notice 0 child_ended) { current_proc = 1 }

waitpid-notify_wait_example :
    (notify_wait 0 child_ended ≡ some (Answer.after_notice 0 child_ended))
    × (lookup 1 (Answer.after_notice 0 child_ended).pt.tab
        ≡ some (record parent { stat = runnable }))
    × (w : SignalManager) × (waitpid_resume parent_turn ≡ returned (pos 2) w)
    × (◌≢◌ {A = ℕ} 100 0 → w.user 1 100 ≡ 9)
unfolding lookup waited member awaited requested
waitpid-notify_wait_example =
    Answer.waitpid-notify_wait minus_one 100 0 0 2 quiet slept child_ended parent_turn parent
      (record parent { stat = sleeping }) ended refl refl refl refl sleeps
      (others slept child_ended refl (done child_ended)) refl refl refl refl
      (others (Answer.after_notice 0 child_ended) parent_turn refl (done parent_turn)) refl

quiet-NoMissed : NoMissed quiet
unfolding happened awaited
quiet-NoMissed q h = refl

-- The child gives its notice before the parent waits.
abbrev noticed : SignalManager
noticed = record quiet { current_proc = 2; happened_waits = record { pid = 2; ev = 0 } ∷ [] }

notices : notify_wait 0 (record quiet { current_proc = 2 }) ≡ some noticed
unfolding notify_wait notify_with answer
notices = refl

Step-NoMissed_example : NoMissed noticed
Step-NoMissed_example =
    NoMissed.Step-NoMissed (notifies (record quiet { current_proc = 2 }) noticed 0 notices)
      quiet-NoMissed

-- A request for no file is refused, and `poll` returns at once.
abbrev astray : SignalManager
astray = record quiet { fds = λ a. record { fd = negsuc 0; events = 1; revents = 0 } }

abbrev refused : SignalManager
refused = left_by astray (poll (λ dev ev. 0) 400 1 (pos 10) astray)

poll_returns : poll (λ dev ev. 0) 400 1 (pos 10) astray ≡ returned minus_one refused
unfolding poll poll_as poll_scan poll_one poll_decide lookup
poll_returns = refl

poll-NoPending_example :
    (pending 1 refused.pending_polls ≡ false)
    × ((refused ≡ astray) ⊎ (lookup 1 astray.pt.tab ≡ none) ⊎ (refused.switch_blocked ≡ false))
    × (pending 1 (left_by quiet (poll_resume 1 quiet)).pending_polls ≡ false)
    × ((left_by quiet (poll_resume 1 quiet)).switch_blocked ≡ false)
unfolding pending
poll-NoPending_example =
    NoPending.poll-NoPending (λ dev ev. 0) 400 1 (pos 10) astray refused quiet minus_one refl
      poll_returns

-- The console has input: the child's request fires.
notify_file-fires_example :
    (has_fired (notify_file 9 1 quiet) reading ≡ true)
    × (p' : Process) × (lookup 2 (notify_file 9 1 quiet).pt.tab ≡ some p')
    × (is_sleeping p'.stat ≡ false)
unfolding lookup matches get_fd_key get_dev
notify_file-fires_example =
    Notify.notify_file-fires 9 1 reading child quiet (Memᴰ.head refl) refl refl

-- A tick of 10 milliseconds wakes the child.
tick_down-lookup_example :
    lookup 2 (tick_down 10 quiet).pt.tab
    ≡ some (if some_ends 10 2 quiet.pending_polls then woken child else child)
unfolding lookup
tick_down-lookup_example = Ticks.tick_down-lookup 10 2 quiet child refl

-- A tick of 11 milliseconds comes before the process sleeps, and it never wakes.
abbrev hurried : SignalManager
hurried = record quiet {
  pt = record { tab = (1, parent) ∷ (2, record child { stat = active }) ∷ []; last_pid = 2 };
}

-- A line of two characters, read in two parts
abbrev terminal : Tty
terminal = record { buffer = []; newline_pos = none; screen = [] }

abbrev typing : List Event
typing = typed b'a' ∷ asked 5 ∷ typed 10 ∷ asked 1 ∷ typed b'b' ∷ []

empty-IsLined : IsLined terminal
unfolding find_newline
empty-IsLined = refl

run-queue_example :
    IsLined (run typing terminal).0
    × ((run typing terminal).1 ++ (run typing terminal).0.buffer ≡ [] ++ all_typed typing)
    × ((run typing terminal).0.screen ≡ [] ++ all_typed typing)
run-queue_example = Lines.run-queue typing terminal empty-IsLined
