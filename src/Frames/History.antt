-- ===== src/Frames/History.antt =====
-- Runs of `allocate(false)` with no `free` between them.
use stable_genius.Common.{
  ℕ, zero, suc, ◌*◌, ◌≡◌, ◌≢◌, inl, inr, true, false, ◌==◌, if◌then◌else◌, List, [], ◌∷◌, arith,
  Bool-cases, ==_iff,
}
use stable_genius.Frames.{page_used, Frames, allocate, page_size}
use stable_genius.Frames.Small.{allocate_small-Grants, allocate-Outcome, Outcome, failed, granted}
use stable_genius.Frames.Bits.{page_used-mark}

-- The addresses that `n` calls return, in order, less those that are 0.
unfoldable pub allocate_times : ℕ → Frames → List ℕ
allocate_times zero f = []
allocate_times (suc n) f =
    let (g, a) = allocate false f in if a == 0 then allocate_times n g else a ∷ allocate_times n g

-- Every address of the list differs from `a`; the addresses of a list differ from one another.
abbrev pub Avoids : ℕ → List ℕ → Type 0
Avoids a [] = Unit {0}
Avoids a (b ∷ bs) = (a ≢ b) × Avoids a bs

abbrev pub AllDistinct : List ℕ → Type 0
AllDistinct [] = Unit {0}
AllDistinct (a ∷ as') = Avoids a as' × AllDistinct as'

-- A page that is used stays used.
still_used :
    (f : Frames) {r : Frames × ℕ} (i : ℕ)
    → Outcome f r
    → page_used f.used_pages i ≡ true
    → page_used r.0.used_pages i ≡ true
still_used f i failed h = h
still_used f i (granted k _ _) h = ground (arith, page_used-mark f.used_pages k i)

allocate_times-Avoids :
    (n : ℕ) (f : Frames) (i : ℕ)
    → page_used f.used_pages i ≡ true
    → Avoids (i * page_size) (allocate_times n f)
unfolding allocate_times
allocate_times-Avoids zero f i used = tt
allocate_times-Avoids (suc n) f i used =
    let (g, a) = allocate false f in
    let later = allocate_times-Avoids n g i (still_used f i (allocate-Outcome f) used) in
    elim (Bool-cases (a == 0)) [
      | inl null ↦ rw null later
      | inr some_page ↦
          let (k, address, bound, was_free, _, _) = allocate_small-Grants f (ground arith) in
          let ne : k ≢ i = λ e. ground arith in rw some_page (omega (arith, ne, address), later)
    ]

-- No page is handed out twice: the addresses other than 0 that any number of calls of
-- `allocate(false)` return, with no `free` between them, are all different.
pub allocate_times-AllDistinct : (n : ℕ) (f : Frames) → AllDistinct (allocate_times n f)
unfolding allocate_times
allocate_times-AllDistinct zero f = tt
allocate_times-AllDistinct (suc n) f =
    let (g, a) = allocate false f in
    let later = allocate_times-AllDistinct n g in
    elim (Bool-cases (a == 0)) [
      | inl null ↦ rw null later
      | inr some_page ↦
          let (k, address, bound, was_free, _, pages) = allocate_small-Grants f (ground arith) in
          let now_used : page_used g.used_pages k ≡ true = ground (arith, pages k, ==_iff k k) in
          rw some_page (rw address (allocate_times-Avoids n g k now_used), later)
    ]
