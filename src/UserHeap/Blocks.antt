-- ===== src/UserHeap/Blocks.antt =====
-- What a client sees of the heap: the blocks that are handed out, with their sizes.
use stable_genius.Common.{
  ℕ, ◌+◌, ◌-◌, ◌^◌, ◌≡◌, ◌≢◌, ◌⊎◌, ◌<◌, ◌≤◌, refl, Bool, true, false, some, List, [], ◌∷◌, ◌++◌,
  arith, leb, if◌then◌else◌, Bool-cases, inl, inr, ◌∙◌, ap,
}
use stable_genius.UserHeap.{UserHeap, malloc, free_block, align_up}
use stable_genius.UserHeap.Layout.{Chunk, chunk, total, IsHeap}
use stable_genius.UserHeap.Scan.{serves, carve, place, offset, any_serves}
use stable_genius.UserHeap.Malloc.{malloc-place, align_up-le}
use stable_genius.UserHeap.Free.{absorb, free_block-absorb}

abbrev pub Blocks : Type 0
Blocks = List (ℕ × ℕ)

-- The address and the size of each chunk that is not free, for chunks that begin at `a`.
abbrev pub blocks : ℕ → List Chunk → Blocks
blocks a [] = []
blocks a (c ∷ cs) =
    if c.free then blocks (a + 16 + c.size) cs else (a + 16, c.size) ∷ blocks (a + 16 + c.size) cs

-- The blocks stand in order from `lo`, with 16 bytes at least between one and the next.
abbrev pub AllApart : ℕ → Blocks → Type 0
AllApart lo [] = Unit {0}
AllApart lo ((p, s) ∷ bs) = (lo ≤ p) × AllApart (p + s + 16) bs

AllApart-mono : (lo hi : ℕ) (bs : Blocks) → lo ≤ hi → AllApart hi bs → AllApart lo bs
AllApart-mono lo hi [] h b = tt
AllApart-mono lo hi ((p, s) ∷ bs) h b = (omega arith, b.1)

blocks-AllApart : (a : ℕ) (cs : List Chunk) → AllApart (a + 16) (blocks a cs)
blocks-AllApart a [] = tt
blocks-AllApart a (c ∷ cs) =
    let rest = blocks-AllApart (a + 16 + c.size) cs in
    elim (Bool-cases c.free) [
      | inl is_free ↦ rw is_free (
          AllApart-mono (a + 16) (a + 16 + c.size + 16) (blocks (a + 16 + c.size) cs) (omega arith)
            rest)
      | inr used ↦ rw used (omega arith, rest)
    ]

blocks-absorb : (a n : ℕ) (cs : List Chunk) → blocks a (absorb n cs) ≡ blocks (a + 16 + n) cs
unfolding absorb
blocks-absorb a n [] = refl
blocks-absorb a n (c ∷ cs) =
    let e : a + 16 + (n + 16 + c.size) ≡ a + 16 + n + 16 + c.size = omega arith in
    let rest = blocks-absorb a (n + 16 + c.size) cs in ground (arith, e, rest)

blocks-append :
    (a : ℕ) (xs cs : List Chunk) → blocks a (xs ++ cs) ≡ blocks a xs ++ blocks (a + total xs) cs
blocks-append a [] cs = let e : a + 0 ≡ a = omega arith in rw e
blocks-append a (c ∷ xs) cs =
    let e : a + (16 + c.size + total xs) ≡ a + 16 + c.size + total xs = omega arith in
    let rest = blocks-append (a + 16 + c.size) xs cs in ground (arith, e, rest)

-- The block at address `p`, of `n` bytes at least, is new among the blocks, and all others stay.
abbrev pub Adds : (p n : ℕ) → Blocks → Blocks → Type 0
Adds p n old new =
    (xs : Blocks) × (s : ℕ) × (ys : Blocks) × (old ≡ xs ++ ys)
    × (new ≡ xs ++ ((p, s) ∷ ys))
    × (n ≤ s)

carve-Adds :
    (a n : ℕ) (c : Chunk) (cs : List Chunk)
    → serves n c ≡ true
    → (s : ℕ) × (blocks a (carve n c ++ cs) ≡ (a + 16, s) ∷ blocks (a + 16 + c.size) cs) × (n ≤ s)
unfolding carve
carve-Adds a n c cs fit = elim (Bool-cases (leb (n + 32) c.size)) [
  | inl big ↦
      let e : a + 16 + n + 16 + (c.size - n - 16) ≡ a + 16 + c.size = ground arith in
      (n, rw (big, e), omega arith)
  | inr small ↦ (c.size, rw small, ground arith)
]

place-Adds :
    (a n : ℕ) (cs : List Chunk)
    → Adds (a + offset n cs + 16) n (blocks a cs) (blocks a (place n cs))
unfolding place offset
place-Adds a n [] =
    let e : a + 0 + 16 ≡ a + 16 = omega arith in ([], n, [], refl, rw e, omega arith)
place-Adds a n (c ∷ cs) = elim (Bool-cases (serves n c)) [
  | inl fit ↦
      let (s, e, big) = carve-Adds a n c cs fit in
      let at : a + 0 + 16 ≡ a + 16 = omega arith in
      ([], s, blocks (a + 16 + c.size) cs, ground (arith, fit), simp (fit, at) e, big)
  | inr unfit ↦
      let (xs, s, ys, old, new, big) = place-Adds (a + 16 + c.size) n cs in
      let at : a + (16 + c.size + offset n cs) ≡ a + 16 + c.size + offset n cs = omega arith in
      elim (Bool-cases c.free) [
        | inl is_free ↦ (
          xs,
          s,
          ys,
          ground (arith, is_free, old),
          simp (unfit, at) (ground (arith, is_free, new)),
          big,
        )
        | inr used ↦ (
          (a + 16, c.size) ∷ xs,
          s,
          ys,
          ground (arith, used, old),
          simp (unfit, at) (ground (arith, used, new)),
          big,
        )
      ]
]

-- On a heap that stands for chunks, `malloc` of a size other than 0 ends. It returns the address of a
-- new block of at least that size, every block that was handed out before stays as it was, and the
-- blocks with their headers do not overlap, provided that the heap stays below 4GB, and that a free
-- chunk serves or the system grants the memory.
pub malloc-Adds :
    (brk : ℕ → Bool) (size : ℕ) (h : UserHeap) (cs : List Chunk)
    → IsHeap h cs
    → size ≢ 0
    → h.last + size + 48 < 2 ^ 32
    → (any_serves (align_up size) cs ≡ true) ⊎ (brk (h.last + 32 + align_up size) ≡ true)
    → (g : UserHeap) × (p : ℕ) × (ds : List Chunk) × (malloc brk size h ≡ some (g, p))
      × IsHeap g ds
      × (g.start ≡ h.start)
      × Adds p size (blocks h.start cs) (blocks h.start ds)
      × AllApart (h.start + 16) (blocks h.start ds)
malloc-Adds brk size h cs v ne bound enough =
    let n : ℕ = align_up size in
    let (le, lt, _) = align_up-le size ne (omega (arith, v.fits)) in
    let (g, run, valid, same) = malloc-place brk size h cs v ne (omega (arith, lt)) enough in
    let (xs, s, ys, old, new, big) = place-Adds h.start n cs in
    (
      g,
      h.start + offset n cs + 16,
      place n cs,
      run,
      valid,
      same,
      (xs, s, ys, old, new, omega (arith, big, le)),
      blocks-AllApart h.start (place n cs),
    )

-- `free` of the address of a chunk that is handed out ends, and takes exactly its block away.
pub free_block-blocks :
    (h : UserHeap) (xs : List Chunk) (n : ℕ) (ys : List Chunk)
    → IsHeap h (xs ++ (chunk n false ∷ ys))
    → let p = h.start + total xs + 16 in
      let front = blocks h.start xs in
      let back = blocks (p + n) ys in
      (g : UserHeap) × (ds : List Chunk) × (free_block p h ≡ some g)
      × IsHeap g ds
      × (blocks h.start (xs ++ (chunk n false ∷ ys)) ≡ front ++ ((p, n) ∷ back))
      × (blocks g.start ds ≡ front ++ back)
free_block-blocks h xs n ys v =
    let (g, run, valid, same) = free_block-absorb h xs n ys v in
    (
      g,
      xs ++ absorb n ys,
      run,
      valid,
      blocks-append h.start xs (chunk n false ∷ ys),
      rw same (
          blocks-append h.start xs (absorb n ys)
          ∙ ap (λ b. blocks h.start xs ++ b) (blocks-absorb (h.start + total xs) n ys)),
    )
