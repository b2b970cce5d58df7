-- ===== src/Frames/Large.antt =====
-- `allocate(true)` and `free(_, true)`: large pages of 4MB, 1024 frames each.
use stable_genius.Common.{
  ℕ, zero, suc, ◌+◌, ◌*◌, ◌/◌, ◌%◌, ◌^◌, ◌≡◌, ◌≢◌, ◌<◌, ◌≤◌, Bool, true, false, ◌&&◌, arith, ltb,
  leb, if◌then◌else◌, some, Option-cases, inl, inr, first_from, first_from-IsFirst,
  first_from-eq-some, first_from-eq-none, first_from-none, IsFirst, ◌-◌, Bool-cases,
}
use stable_genius.Frames.{
  Bitmap, page_used, Frames, allocate, free, find_large, free_large, check_large, page_size,
  large_page_size, number_of_pages, fill_large, fill,
}
use stable_genius.Frames.Bits.{fill_from_lem}

-- Frame `i` is one of the 1024 frames of large page `n`.
abbrev pub IsFrameOf : ℕ → ℕ → Type 0
IsFrameOf n i = (n * 1024 ≤ i) × (i < n * 1024 + 1024)

free_large_sound :
    (m : Bitmap) (n i : ℕ)
    → n < 1024
    → free_large m n ≡ true
    → IsFrameOf n i
    → page_used m i ≡ false
unfolding check_large
free_large_sound m n i bound h at =
    let e : n * large_page_size % 2 ^ 32 / 2 ^ 12 / 2 ^ 10 * 2 ^ 10 ≡ n * 1024 = omega arith in
    elim (Option-cases (first_from (page_used m) 1024 (n * 1024))) [
      | inl miss ↦ first_from-none (page_used m) 1024 (n * 1024) i miss at.0 at.1
      | inr (t, hit) ↦ absurd (ground (arith, e, hit))
    ]

free_large_complete :
    (m : Bitmap) (n : ℕ)
    → n < 1024
    → ((i : ℕ) → IsFrameOf n i → page_used m i ≡ false)
    → free_large m n ≡ true
unfolding check_large
free_large_complete m n bound h =
    let e : n * large_page_size % 2 ^ 32 / 2 ^ 12 / 2 ^ 10 * 2 ^ 10 ≡ n * 1024 = omega arith in
    let miss = first_from-eq-none (page_used m) 1024 (n * 1024) λ j a b. h j (a, b) in
    ground (arith, e, miss)

fill_large_lem :
    (n i : ℕ) (m : Bitmap) (k b : ℕ)
    → fill_large n i m k b ≡ (if leb (i / 32) k && ltb k (i / 32 + n) then true else m k b)
unfolding fill_large fill
fill_large_lem zero i m k b = ground arith
fill_large_lem (suc n) i m k b =
    ground (arith, fill_large_lem n (i + 32) (fill true m (i / 32)) k b)

-- The state that `allocate(true)` leaves when it takes large page `n`.
abbrev took : Frames → ℕ → Frames
took f n = record f { last_alloc = n; used_pages = fill_large 32 n f.used_pages }

-- Which large page a successful `allocate(true)` takes.
find_large-free :
    (f : Frames) (n : ℕ)
    → f.last_alloc < number_of_pages
    → find_large f ≡ some n
    → (n < 1024) × (free_large f.used_pages n ≡ true)
unfolding find_large
find_large-free f n bound e =
    let boundary : ℕ = f.last_alloc / 2 ^ 10 + 1 in
    let p : ℕ → Bool = free_large f.used_pages in
    elim (Option-cases (first_from p (1024 - boundary) boundary)) [
      | inl miss ↦
          let found = first_from-IsFirst p boundary 0 {t = n} (ground arith) in
          (omega (arith, found.below), found.hit)
      | inr (t, hit) ↦
          let found = first_from-IsFirst p (1024 - boundary) boundary hit in
          let same : t ≡ n = ground arith in
          rw (← same) (omega (arith, found.below, found.above), found.hit)
    ]

allocate_large-eq :
    (f : Frames) (n : ℕ)
    → n < 1024
    → find_large f ≡ some n
    → (allocate true f).1 ≡ n * large_page_size
unfolding allocate
allocate_large-eq f n low hit =
    let e : n * large_page_size % 2 ^ 32 ≡ n * large_page_size = omega arith in
    ground (arith, hit, e)

-- What `allocate(true)` returns when it does not return 0, and the state after it.
pub allocate_large-took :
    (f : Frames)
    → f.last_alloc < number_of_pages
    → (allocate true f).1 ≢ 0
    → (n : ℕ) × (n < 1024)
      × (n ≢ 0)
      × (find_large f ≡ some n)
      × (free_large f.used_pages n ≡ true)
      × (allocate true f ≡ (took f n, n * large_page_size))
unfolding allocate
allocate_large-took f bound ne = elim (Option-cases (find_large f)) [
  | inl miss ↦ absurd (ground arith)
  | inr (n, hit) ↦
      let (low, is_free) = find_large-free f n bound hit in
      let e : n * large_page_size % 2 ^ 32 ≡ n * large_page_size = omega arith in
      let ne0 : n ≢ 0 = λ z. ne (ground arith) in
      (n, low, ne0, hit, is_free, rw (hit, allocate) (rw e))
]

-- An address that `allocate(true)` returns, unless it is 0, is a multiple of 4MB all of whose 1024
-- frames were free, provided that the last allocated index is below the number of pages. None of
-- the frames is marked: after the call every one of them is free still.
allocate_large-unmarked :
    (f : Frames) (d : ℕ)
    → f.last_alloc < number_of_pages
    → (allocate true f).1 ≢ 0
    → d < 1024
    → let i = (allocate true f).1 / page_size + d in
      ((allocate true f).1 % large_page_size ≡ 0)
      × (page_used f.used_pages i ≡ false)
      × (page_used (allocate true f).0.used_pages i ≡ false)
allocate_large-unmarked f d bound ne small =
    let (n, low, ne0, hit, is_free, result) = allocate_large-took f bound ne in
    let e : n * large_page_size / page_size + d ≡ n * 1024 + d = omega arith in
    let was = free_large_sound f.used_pages n (n * 1024 + d) low is_free (omega arith) in
    let now : page_used (took f n).used_pages (n * 1024 + d) ≡ false =
      ground (
        arith,
        was,
        fill_large_lem 32 n f.used_pages ((n * 1024 + d) / 32) ((n * 1024 + d) % 32),
      ) in
    rw (result, e) (omega arith, was, now)

still_free :
    (f : Frames) (n : ℕ)
    → n < 1024
    → n ≢ 0
    → free_large f.used_pages n ≡ true
    → free_large (took f n).used_pages n ≡ true
still_free f n low ne is_free = free_large_complete (took f n).used_pages n low λ i at. ground (
  arith,
  free_large_sound f.used_pages n i low is_free at,
  fill_large_lem 32 n f.used_pages (i / 32) (i % 32),
)

still_full :
    (f : Frames) (n j : ℕ)
    → j < 1024
    → free_large f.used_pages j ≡ false
    → free_large (took f n).used_pages j ≡ false
still_full f n j low is_full = elim (Bool-cases (free_large (took f n).used_pages j)) [
  | inr h ↦ h
  | inl h ↦
      let was = free_large_complete f.used_pages j low λ i at. ground (
        arith,
        free_large_sound (took f n).used_pages j i low h at,
        fill_large_lem 32 n f.used_pages (i / 32) (i % 32),
      ) in
      absurd (ground (arith, was, is_full))
]

-- A search that starts below 1024 starts at large page 1.
find_large-IsFirst :
    (f : Frames) (n : ℕ)
    → f.last_alloc < 1024
    → n ≢ 0
    → find_large f ≡ some n
    → IsFirst (free_large f.used_pages) 1023 1 n
unfolding find_large
find_large-IsFirst f n bound ne e =
    let one : f.last_alloc / 2 ^ 10 + 1 ≡ 1 = omega arith in
    let p : ℕ → Bool = free_large f.used_pages in
    elim (Option-cases (first_from p 1023 1)) [
      | inl miss ↦
          let found = first_from-IsFirst p 1 0 {t = n} (ground (arith, one, miss)) in
          absurd (omega (arith, found.below, ne))
      | inr (t, hit) ↦
          let same : t ≡ n = ground (arith, one, hit) in
          rw (← same) (first_from-IsFirst p 1023 1 hit)
    ]

find_large-eq-some :
    (f : Frames) (n : ℕ)
    → f.last_alloc < 1024
    → IsFirst (free_large f.used_pages) 1023 1 n
    → find_large f ≡ some n
unfolding find_large
find_large-eq-some f n bound first =
    let one : f.last_alloc / 2 ^ 10 + 1 ≡ 1 = omega arith in
    let hit = first_from-eq-some (free_large f.used_pages) 1023 1 n first in
    ground (arith, one, hit)

found_again :
    (f : Frames) (n : ℕ)
    → f.last_alloc < 1024
    → n ≢ 0
    → n < 1024
    → find_large f ≡ some n
    → find_large (took f n) ≡ some n
found_again f n bound ne low e =
    let first = find_large-IsFirst f n bound ne e in
    find_large-eq-some (took f n) n low (record {
      above = first.above;
      below = first.below;
      hit = still_free f n low ne first.hit;
      missed = λ j a b. still_full f n j (omega arith) (first.missed j a b);
    })

-- If the last allocated index is below 1024, as it is after any large allocation, and
-- `allocate(true)` returns an address other than 0, then a second call returns the same address.
allocate_large_twice :
    (f : Frames)
    → f.last_alloc < 1024
    → (allocate true f).1 ≢ 0
    → (allocate true (allocate true f).0).1 ≡ (allocate true f).1
allocate_large_twice f bound ne =
    let (n, low, ne0, hit, is_free, result) = allocate_large-took f (omega arith) ne in
    rw result (allocate_large-eq (took f n) n low (found_again f n bound ne0 low hit))

-- `free(a, true)` at the address of large page `n`, with `n` from 1 to 31, frees none of its frames;
-- it frees the 1024 frames that begin at frame 32768 * n instead, whoever holds them.
free_large_misses :
    (f : Frames) (n d : ℕ)
    → n ≢ 0
    → n < 32
    → d < 1024
    → let g = free true (n * large_page_size) f in
      (page_used g.used_pages (n * 1024 + d) ≡ page_used f.used_pages (n * 1024 + d))
      × (page_used g.used_pages (n * 32768 + d) ≡ false)
unfolding free
free_large_misses f n d ne low small =
    let e : n * large_page_size / 2 ^ 22 * 2 ^ 10 ≡ n * 1024 = omega arith in
    rw e (
      ground (
        arith,
        fill_from_lem false 32 (n * 1024) f.used_pages ((n * 1024 + d) / 32) ((n * 1024 + d) % 32),
      ),
      ground (
        arith,
        fill_from_lem false 32 (n * 1024) f.used_pages ((n * 32768 + d) / 32)
            ((n * 32768 + d) % 32),
      ),
    )
