-- ===== src/UserHeap/Malloc.antt =====
-- `malloc` against the chunks: it takes the first chunk that serves, or adds one.
use stable_genius.Common.{
  ℕ, ◌+◌, ◌-◌, ◌*◌, ◌%◌, ◌^◌, ◌≡◌, ◌≢◌, ◌⊎◌, ◌<◌, ◌≤◌, refl, Bool, true, false, some, List, ◌∷◌,
  arith, Bool-cases, inl, inr,
}
use stable_genius.UserHeap.{UserHeap, write, new_block, finish_malloc, malloc, align_up, add32}
use stable_genius.UserHeap.Layout.{Chunk, IsHeap, total_lem}
use stable_genius.UserHeap.Scan.{place, offset, any_serves, replace}
use stable_genius.UserHeap.Claim.{find_free_block-served, find_free_block-unserved}

-- The new last block, and the block that was the last, when the system grants the memory.
module _ (brk : ℕ → Bool) (h : UserHeap) (n : ℕ) (ds : h.data_size ≡ 16)
    (bound : h.last + 32 + n < 2 ^ 32) (granted : brk (h.last + 32 + n) ≡ true) where
  abbrev grown : UserHeap
  grown = (new_block brk n h).0

  grown_fields :
      (new_block brk n h ≡ (grown, h.last))
      × (grown.start ≡ h.start)
      × (grown.last ≡ h.last + 16 + n)
      × (grown.data_size ≡ 16)
  unfolding new_block
  grown_fields =
      let e : add32 (add32 h.last (2 * h.data_size)) n ≡ h.last + 32 + n =
        omega (arith, ds, bound) in
      (
        ground (arith, e, granted),
        ground (arith, e, granted),
        ground (arith, e, granted, ds),
        ground (arith, e, granted),
      )

  grown_blocks :
      (x : ℕ)
      → (grown.mem h.last ≡ record { size = n; next = h.last + 16 + n; free = false })
        × (grown.mem (h.last + 16 + n) ≡ record { size = 0; next = 0; free = true })
        × ((x < h.last) → grown.mem x ≡ h.mem x)
  unfolding new_block write
  grown_blocks x =
      let e : add32 (add32 h.last (2 * h.data_size)) n ≡ h.last + 32 + n =
        omega (arith, ds, bound) in
      let e' : add32 (add32 h.last n) h.data_size ≡ h.last + 16 + n = omega (arith, ds, bound) in
      (
        ground (arith, e, e', granted),
        ground (arith, e, e', granted),
        λ below. ground (arith, e, e', granted, below),
      )

new_block_lem :
    (brk : ℕ → Bool) (h : UserHeap) (n : ℕ) (cs : List Chunk)
    → IsHeap h cs
    → h.last + 32 + n < 2 ^ 32
    → any_serves n cs ≡ false
    → brk (h.last + 32 + n) ≡ true
    → (g : UserHeap) × (new_block brk n h ≡ (g, h.last))
      × IsHeap g (place n cs)
      × (h.last ≡ h.start + offset n cs)
      × (g.last ≡ h.last + 16 + n)
      × (g.start ≡ h.start)
new_block_lem brk h n cs v bound unserved granted =
    let at = (find_free_block-unserved h n cs v unserved).1 in
    let g = (new_block brk n h).0 in
    let (result, g_start, g_last, g_header) = grown_fields brk h n v.header bound granted in
    let blocks = grown_blocks brk h n v.header bound granted in
    let (address, lies) =
      replace h.mem g.mem n h.start cs h.last h.last (h.last + 16 + n) at v.lies
        (λ x less. (blocks x).2 less)
        (λ a' c' rest' e' l' fit'.
          absurd (omega (arith, total_lem h.mem a' (c' ∷ rest') h.last l')))
        (λ e'. ((blocks 0).0, (refl, (blocks 0).1))) in
    (
      g,
      result,
      record {
        header = g_header;
        not_null = omega (arith, g_start, v.not_null);
        lies = rw (g_start, g_last) lies;
        fits = omega (arith, g_last);
      },
      address,
      g_last,
      g_start,
    )

-- The rounded size is at least the size, by less than 16 bytes, unless it wraps.
pub align_up-le :
    (size : ℕ)
    → size ≢ 0
    → size + 16 < 2 ^ 32
    → (size ≤ align_up size) × (align_up size < size + 16) × (align_up size % 16 ≡ 0)
align_up-le size ne bound = omega arith

-- On a heap that stands for the chunks `cs`, `malloc` of a size other than 0 ends, and it returns the
-- address behind the header of the chunk that `place` takes; the heap then stands for the chunks
-- after that. It asks that the rounded size leaves the heap below 4GB, and that the system grants
-- the memory where no chunk serves.
pub malloc-place :
    (brk : ℕ → Bool) (size : ℕ) (h : UserHeap) (cs : List Chunk)
    → IsHeap h cs
    → size ≢ 0
    → h.last + 32 + align_up size < 2 ^ 32
    → (any_serves (align_up size) cs ≡ true) ⊎ (brk (h.last + 32 + align_up size) ≡ true)
    → (g : UserHeap) × (malloc brk size h ≡ some (g, h.start + offset (align_up size) cs + 16))
      × IsHeap g (place (align_up size) cs)
      × (g.start ≡ h.start)
unfolding malloc finish_malloc
malloc-place brk size h cs v ne bound enough =
    let n : ℕ = align_up size in
    elim (Bool-cases (any_serves n cs)) [
      | inl served ↦
          let (g, e, valid, same_last, same_start, below) =
            find_free_block-served h n cs v bound served in
          (
            g,
            ground (arith, e, ne, valid.header, valid.fits, same_last, below, v.not_null),
            valid,
            same_start,
          )
      | inr unserved ↦
          let (e, at) = find_free_block-unserved h n cs v unserved in
          let (g, e', valid, address, last', same_start) =
            new_block_lem brk h n cs v bound unserved (ground arith) in
          (
            g,
            ground (arith, e, e', ne, address, last', valid.header, valid.fits, v.not_null),
            valid,
            same_start,
          )
    ]

-- Where no chunk serves and the system refuses the memory, `malloc` leaves the heap alone, and what
-- it returns is no null pointer: it is the address 16.
malloc-refused :
    (brk : ℕ → Bool) (size : ℕ) (h : UserHeap) (cs : List Chunk)
    → IsHeap h cs
    → size ≢ 0
    → h.last + 32 + align_up size < 2 ^ 32
    → any_serves (align_up size) cs ≡ false
    → brk (h.last + 32 + align_up size) ≡ false
    → malloc brk size h ≡ some (h, 16)
unfolding malloc finish_malloc new_block
malloc-refused brk size h cs v ne bound unserved refused =
    let (e, at) = find_free_block-unserved h (align_up size) cs v unserved in
    ground (arith, e, ne, v.header, v.not_null, refused)

-- A size in the last 15 bytes below 4GB is rounded to 0: `malloc` then acts as for a chunk of 0
-- bytes, and returns an address behind a header that is no null pointer.
pub malloc-wraps :
    (brk : ℕ → Bool) (size : ℕ) (h : UserHeap) (cs : List Chunk)
    → IsHeap h cs
    → 2 ^ 32 - 16 < size
    → size < 2 ^ 32
    → h.last + 32 < 2 ^ 32
    → brk (h.last + 32) ≡ true
    → (g : UserHeap) × (malloc brk size h ≡ some (g, h.start + offset 0 cs + 16))
      × IsHeap g (place 0 cs)
      × (g.start ≡ h.start)
malloc-wraps brk size h cs v low high bound granted =
    let e : align_up size ≡ 0 = omega arith in
    rw (← e)
      (malloc-place brk size h cs v (omega arith) (omega (arith, e)) (inr (rw e (ground arith))))
