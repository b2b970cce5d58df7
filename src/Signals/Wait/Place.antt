-- ===== src/Signals/Wait/Place.antt =====
-- The place of a request of `waitpid` of kernel/cpp/SignalManager.cpp among the others: which changes of the
-- list leave it there.
use stable_genius.Common.{
  ℕ, ◌≡◌, ◌≢◌, refl, Bool, true, false, ◌||◌, some, List, [], ◌∷◌, ◌++◌, ◌==◌, arith, Bool-cases,
  Option-cases, inl, inr,
}
use stable_genius.Signals.{WaitRequest, member, purge_waits}
use stable_genius.Signals.Wait.{take_request, answer}
use stable_genius.Signals.Wait.NoMissed.{awaited}

-- Whether a process has a request.
unfoldable pub requested : ℕ → List WaitRequest → Bool
requested pid [] = false
requested pid (r ∷ rs) = r.pid == pid || requested pid rs

-- The request stands in the list, and none before it waits for `q` or is of the same process.
pub data Placed (r : WaitRequest) (q : ℕ) : List WaitRequest → Type 0 where
  here : (rs : List WaitRequest) → Placed r q (r ∷ rs)
  later :
      (v : WaitRequest) (rs : List WaitRequest)
      → member q v.wait_pids ≡ false
      → (v.pid == r.pid) ≡ false
      → Placed r q rs
      → Placed r q (v ∷ rs)

pub last-Placed :
    (r : WaitRequest) (q : ℕ) (rs : List WaitRequest)
    → awaited q rs ≡ false
    → requested r.pid rs ≡ false
    → Placed r q (rs ++ r ∷ [])
unfolding awaited requested
last-Placed r q [] alone once = here []
last-Placed r q (v ∷ rs) alone once =
    later v (rs ++ r ∷ []) (ground arith) (ground arith)
      (last-Placed r q rs (ground arith) (ground arith))

pub append-Placed :
    {r : WaitRequest} {q : ℕ} {rs : List WaitRequest} (ss : List WaitRequest)
    → Placed r q rs
    → Placed r q (rs ++ ss)
append-Placed ss (here rs) = here (rs ++ ss)
append-Placed ss (later v rs a b p) = later v (rs ++ ss) a b (append-Placed ss p)

pub take_request-Placed :
    {r : WaitRequest} {q : ℕ} {rs : List WaitRequest} (pid : ℕ) (x : WaitRequest)
    (rest : List WaitRequest)
    → Placed r q rs
    → pid ≢ r.pid
    → take_request pid rs ≡ some (x, rest)
    → Placed r q rest
unfolding take_request
take_request-Placed {r} pid x rest (here rs) other e = elim (Option-cases (take_request pid rs)) [
  | inl gone ↦ absurd (ground (arith, gone, other, e))
  | inr ((y, left), found) ↦
      let same : rest ≡ r ∷ left = ground (arith, found, other, e) in rw same (here left)
]
take_request-Placed {r} pid x rest (later v rs a b p) other e = elim (Bool-cases (v.pid == pid)) [
  | inl taken ↦ let same : rest ≡ rs = ground (arith, taken, e) in rw same p
  | inr kept ↦ elim (Option-cases (take_request pid rs)) [
    | inl gone ↦ absurd (ground (arith, gone, kept, e))
    | inr ((y, left), found) ↦
        let same : rest ≡ v ∷ left = ground (arith, found, kept, e) in
        rw same (later v left a b (take_request-Placed pid y left p other found))
  ]
]

-- Another child's notice answers another request, or none.
pub answer-Placed :
    {r : WaitRequest} {q : ℕ} {rs : List WaitRequest} (pid status w : ℕ) (rest : List WaitRequest)
    → Placed r q rs
    → pid ≢ q
    → member pid r.wait_pids ≡ false
    → answer pid status rs ≡ some (w, rest)
    → Placed r q rest
unfolding answer
answer-Placed {r} pid status w rest (here rs) other unasked e =
    elim (Option-cases (answer pid status rs)) [
      | inl gone ↦ absurd (ground (arith, gone, unasked, e))
      | inr ((y, left), found) ↦
          let same : rest ≡ r ∷ left = ground (arith, found, unasked, e) in rw same (here left)
    ]
answer-Placed {r} {q} pid status w rest (later v rs a b p) other unasked e =
    elim (Bool-cases (member pid v.wait_pids)) [
      | inl told ↦
          let v' : WaitRequest = record v { wait_pids = pid ∷ []; local_wstatus = status } in
          let same : rest ≡ v' ∷ rs = ground (arith, told, e) in
          let not_q : member q v'.wait_pids ≡ false = unfold member in ground (arith, other) in
          rw same (later v' rs not_q b p)
      | inr kept ↦ elim (Option-cases (answer pid status rs)) [
        | inl gone ↦ absurd (ground (arith, gone, kept, e))
        | inr ((y, left), found) ↦
            let same : rest ≡ v ∷ left = ground (arith, found, kept, e) in
            rw same (later v left a b (answer-Placed pid status y left p other unasked found))
      ]
    ]

-- The request once its child has given notice
abbrev pub answered : (q status : ℕ) → WaitRequest → WaitRequest
answered q status r = record r { wait_pids = q ∷ []; local_wstatus = status }

-- The child's own notice answers the request, and leaves it in its place.
pub answer-own :
    {r : WaitRequest} {q : ℕ} {rs : List WaitRequest} (status : ℕ)
    → Placed r q rs
    → member q r.wait_pids ≡ true
    → (rest : List WaitRequest) × (answer q status rs ≡ some (r.pid, rest))
      × Placed (answered q status r) q rest
unfolding answer
answer-own {r} {q} status (here rs) asked = (answered q status r ∷ rs, rw asked refl, here rs)
answer-own {r} {q} status (later v rs a b p) asked =
    let (rest, found, placed) = answer-own status p asked in
    (v ∷ rest, ground (arith, a, found), later v rest a b placed)

-- The process finds its own request.
pub take_request-own :
    {r : WaitRequest} {q : ℕ} {rs : List WaitRequest}
    → Placed r q rs
    → (rest : List WaitRequest) × (take_request r.pid rs ≡ some (r, rest))
unfolding take_request
take_request-own {r} (here rs) = (rs, ground arith)
take_request-own {r} (later v rs a b p) =
    let (rest, found) = take_request-own p in (v ∷ rest, ground (arith, b, found))

pub purge_waits-Placed :
    {r : WaitRequest} {q : ℕ} {rs : List WaitRequest} (pid : ℕ)
    → Placed r q rs
    → pid ≢ r.pid
    → Placed r q (purge_waits pid rs)
unfolding purge_waits
purge_waits-Placed {r} pid (here rs) other =
    let kept : (r.pid == pid) ≡ false = ground (arith, other) in rw kept (here (purge_waits pid rs))
purge_waits-Placed {r} pid (later v rs a b p) other = elim (Bool-cases (v.pid == pid)) [
  | inl gone ↦ rw gone (purge_waits-Placed pid p other)
  | inr stays ↦ rw stays (later v (purge_waits pid rs) a b (purge_waits-Placed pid p other))
]
