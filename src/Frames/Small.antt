-- ===== src/Frames/Small.antt =====
-- `allocate(false)` and `free(_, false)`: one 4KB page.
use stable_genius.Common.{
  ℕ, ◌+◌, ◌*◌, ◌/◌, ◌%◌, ◌^◌, ◌≡◌, ◌≢◌, ◌<◌, refl, true, false, ◌||◌, arith, ◌==◌, some, not,
  Option-cases, ==_iff, inl, inr, first_from, first_from-IsFirst, first_from-eq-some,
  first_from-eq-none, ◌-◌,
}
use stable_genius.Frames.{
  Bitmap, page_used, mark, Frames, allocate, free, find_small, free_small, check_small, page_size,
  number_of_pages,
}
use stable_genius.Frames.Bits.{page_used-mark, page_used-unmark}

-- On a page number below 2 ^ 20 the test of the search is the bit of that page.
free_small_lem : (m : Bitmap) (i : ℕ) → i < number_of_pages → free_small m i ≡ not (page_used m i)
unfolding check_small
free_small_lem m i h = let e : i * page_size % 2 ^ 32 / 2 ^ 12 ≡ i = omega arith in rw e

-- A page that the search finds is a page of the memory, and is free.
find_small-free :
    (f : Frames) (loc : ℕ)
    → find_small f ≡ some loc
    → (loc < number_of_pages) × (page_used f.used_pages loc ≡ false)
unfolding find_small
find_small-free f loc e =
    elim (Option-cases (
      first_from (free_small f.used_pages) (number_of_pages - (f.last_alloc + 1))
        (f.last_alloc + 1))) [
          | inl miss ↦ ground (arith, free_small_lem f.used_pages 0)
          | inr (t, hit) ↦
              let found =
                first_from-IsFirst (free_small f.used_pages) (number_of_pages - (f.last_alloc + 1))
                  (f.last_alloc + 1) hit in
              let bound : t < number_of_pages = omega (arith, found.below, found.above) in
              ground (arith, free_small_lem f.used_pages t bound, found.hit, bound)
        ]

-- How `allocate(false)` ends: nothing found and nothing changed, or page `i` handed out.
pub data Outcome (f : Frames) : Frames × ℕ → Type 0 where
  failed : Outcome f (f, 0)
  granted :
      (i : ℕ)
      → i < number_of_pages
      → page_used f.used_pages i ≡ false
      → Outcome f (record f { last_alloc = i; used_pages = mark f.used_pages i }, i * page_size)

pub allocate-Outcome : (f : Frames) → Outcome f (allocate false f)
unfolding allocate
allocate-Outcome f = elim (Option-cases (find_small f)) [
  | inl miss ↦ rw (miss, allocate) failed
  | inr (t, hit) ↦
      let (bound, was_free) = find_small-free f t hit in
      let e : t * page_size % 2 ^ 32 ≡ t * page_size = omega arith in
      rw (hit, allocate) (rw e (granted t bound was_free))
]

-- The pages that are used after a successful call are page `i`, which was free, and those before.
abbrev pub Grants : Frames → Frames × ℕ → Type 0
Grants f (g, a) =
    (i : ℕ) × (a ≡ i * page_size)
    × (i < number_of_pages)
    × (page_used f.used_pages i ≡ false)
    × (g.last_alloc ≡ i)
    × ((j : ℕ) → page_used g.used_pages j ≡ (j == i || page_used f.used_pages j))

Grants-of_Outcome : {f : Frames} {r : Frames × ℕ} → Outcome f r → r.1 ≢ 0 → Grants f r
Grants-of_Outcome failed ne = absurd (ne refl)
Grants-of_Outcome {f} (granted i bound was_free) ne =
    (i, refl, bound, was_free, refl, λ j. page_used-mark f.used_pages i j)

-- An address that `allocate(false)` returns, unless it is 0, is that of a page below 4GB that was
-- free. Afterwards that page is used, all other pages are as before, and it is the last allocated.
pub allocate_small-Grants : (f : Frames) → (allocate false f).1 ≢ 0 → Grants f (allocate false f)
allocate_small-Grants f ne = Grants-of_Outcome (allocate-Outcome f) ne

-- The next fit: if page `t` is free, lies above the last allocated one, and every page between them
-- is used, then `allocate(false)` returns the address of `t`.
allocate_small-next :
    (f : Frames) (t : ℕ)
    → f.last_alloc < t
    → t < number_of_pages
    → page_used f.used_pages t ≡ false
    → ((j : ℕ) → f.last_alloc < j → j < t → page_used f.used_pages j ≡ true)
    → (allocate false f).1 ≡ t * page_size
unfolding allocate find_small
allocate_small-next f t above below is_free between =
    let hit =
      first_from-eq-some (free_small f.used_pages) (number_of_pages - (f.last_alloc + 1))
        (f.last_alloc + 1) t
        (record {
          above = omega arith;
          below = omega arith;
          hit = ground (arith, free_small_lem f.used_pages t below);
          missed = λ j a b. ground (arith, free_small_lem f.used_pages j, between j);
        }) in
    let e : t * page_size % 2 ^ 32 ≡ t * page_size = omega arith in ground (arith, hit, e)

-- If every page above the last allocated one is used, and page 0 too, `allocate(false)` returns
-- `nullptr` and changes nothing, whichever pages from 1 up to the last allocated one are free.
allocate_small-gives_up :
    (f : Frames)
    → ((j : ℕ) → f.last_alloc < j → j < number_of_pages → page_used f.used_pages j ≡ true)
    → page_used f.used_pages 0 ≡ true
    → allocate false f ≡ (f, 0)
unfolding allocate find_small
allocate_small-gives_up f above zero_used =
    let miss =
      first_from-eq-none (free_small f.used_pages) (number_of_pages - (f.last_alloc + 1))
        (f.last_alloc + 1)
        λ j a b.
          let bound : j < number_of_pages = omega arith in
          ground (arith, free_small_lem f.used_pages j bound, above j, bound) in
    ground (arith, miss, free_small_lem f.used_pages 0)

-- Freeing the address that `allocate(false)` has just returned, unless it is 0, gives back a bitmap
-- that agrees with the one before on every page.
pub free-allocate_small :
    (f : Frames) (j : ℕ)
    → (allocate false f).1 ≢ 0
    → page_used (free false (allocate false f).1 (allocate false f).0).used_pages j
      ≡ page_used f.used_pages j
unfolding free
free-allocate_small f j ne =
    let (i, address, bound, was_free, _, pages) = allocate_small-Grants f ne in
    let e : (allocate false f).1 / 2 ^ 12 ≡ i = omega arith in
    rw e (ground (arith, page_used-unmark (allocate false f).0.used_pages i j, pages j, ==_iff j i))

-- Any address within a page frees it.
pub free-within :
    (f : Frames) (a o : ℕ) → a % 2 ^ 12 ≡ 0 → o < 2 ^ 12 → free false (a + o) f ≡ free false a f
unfolding free
free-within f a o aligned h = let e : (a + o) / 2 ^ 12 ≡ a / 2 ^ 12 = omega arith in rw e refl
