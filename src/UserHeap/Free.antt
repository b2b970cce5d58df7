-- ===== src/UserHeap/Free.antt =====
-- `free` against the chunks: it frees the chunk and merges it with the free ones behind.
use stable_genius.Common.{
  ℕ, zero, suc, ◌+◌, ◌-◌, ◌/◌, ◌^◌, ◌≡◌, ◌<◌, refl, true, false, not, ◌&&◌, some, List, [], ◌∷◌,
  ◌++◌, arith, if◌then◌else◌, ◌==◌, length, Bool-cases, inl, inr, ◌∙◌,
}
use stable_genius.UserHeap.{BlockData, Memory, UserHeap, write, merge, free_block, add32, sub32}
use stable_genius.UserHeap.Claim.{write_other}
use stable_genius.UserHeap.Layout.{
  Chunk, chunk, total, Lies, IsHeap, frame, total_lem, length-total,
}

-- Free chunks behind a free one become part of it.
unfoldable pub absorb : ℕ → List Chunk → List Chunk
absorb n [] = chunk n true ∷ []
absorb n (c ∷ cs) = if c.free then absorb (n + 16 + c.size) cs else chunk n true ∷ c ∷ cs

merge_step :
    (fuel : ℕ) (m : Memory) (a : ℕ) (b d : BlockData)
    → m a ≡ b
    → m b.next ≡ d
    → merge (suc fuel) m 16 a ≡ (
        if d.free && not (d.next == 0)
        then merge fuel
            (write m a
              (record { size = add32 b.size (add32 16 d.size); next = d.next; free = b.free }))
            16
            a
        else some m)
unfolding merge
merge_step fuel m a b d e e' = rw (e, e')

-- One round of the merge, on the chunks.
merged-Lies :
    (m : Memory) (a n : ℕ) (c : Chunk) (cs : List Chunk) (last : ℕ)
    → Lies m a (chunk n true ∷ c ∷ cs) last
    → Lies
        (write m a
          (record { size = n + 16 + c.size; next = a + 16 + n + 16 + c.size; free = true }))
        a
        (chunk (n + 16 + c.size) true ∷ cs)
        last
unfolding write
merged-Lies m a n c cs last l =
    let e : a + 16 + (n + 16 + c.size) ≡ a + 16 + n + 16 + c.size = omega arith in
    rw e (ground arith, frame m _ (a + 16 + n + 16 + c.size) cs last (λ x far. ground arith) l.1.1)

absorb-used :
    (n : ℕ) (c : Chunk) (cs : List Chunk)
    → c.free ≡ false
    → absorb n (c ∷ cs) ≡ chunk n true ∷ c ∷ cs
unfolding absorb
absorb-used n c cs used = ground arith

absorb-free :
    (n : ℕ) (c : Chunk) (cs : List Chunk)
    → c.free ≡ true
    → absorb n (c ∷ cs) ≡ absorb (n + 16 + c.size) cs
unfolding absorb
absorb-free n c cs is_free = ground arith

absorb-nil : (n : ℕ) → absorb n [] ≡ chunk n true ∷ []
unfolding absorb
absorb-nil n = refl

-- The memory after one round of the merge.
abbrev round : Memory → (a n : ℕ) → Chunk → Memory
round m a n c =
    write m a (record { size = n + 16 + c.size; next = a + 16 + n + 16 + c.size; free = true })

-- Such a round is made exactly if the next block is free and not the last.
merge-round :
    (fuel : ℕ) (m : Memory) (a n : ℕ) (c : Chunk) (cs : List Chunk) (last : ℕ)
    → Lies m a (chunk n true ∷ c ∷ cs) last
    → last + 16 < 2 ^ 32
    → merge (suc fuel) m 16 a ≡ (if c.free then merge fuel (round m a n c) 16 a else some m)
merge-round fuel m a n c cs last l bound =
    let end = total_lem m a (chunk n true ∷ c ∷ cs) last l in
    let e : add32 n (add32 16 c.size) ≡ n + 16 + c.size = omega (arith, end) in
    let ne : (a + 16 + n + 16 + c.size == 0) ≡ false = ground arith in
    rw (merge_step fuel m a _ _ l.0 (l.1.0), e, ne) (ground arith)

merge-Lies :
    (fuel : ℕ) (m : Memory) (a n : ℕ) (cs : List Chunk) (last : ℕ)
    → Lies m a (chunk n true ∷ cs) last
    → last + 16 < 2 ^ 32
    → length cs < fuel
    → (g : Memory) × (merge fuel m 16 a ≡ some g)
      × Lies g a (absorb n cs) last
      × ((x : ℕ) → x < a → g x ≡ m x)
merge-Lies zero m a n cs last l bound enough = absurd (omega arith)
merge-Lies (suc fuel) m a n [] last l bound enough =
    (m, merge_step fuel m a _ _ l.0 (l.1.1), rw (absorb-nil n) l, λ x below. refl)
merge-Lies (suc fuel) m a n (c ∷ cs) last l bound enough =
    let step = merge-round fuel m a n c cs last l bound in
    elim (Bool-cases c.free) [
      | inr used ↦ (m, ground (arith, step, used), rw (absorb-used n c cs used) l, λ x below. refl)
      | inl is_free ↦
          let (g, e, lies, same) =
            merge-Lies fuel (round m a n c) a (n + 16 + c.size) cs last
              (merged-Lies m a n c cs last l) bound (omega arith) in
          (
            g,
            ground (arith, step, e, is_free),
            rw (absorb-free n c cs is_free) lies,
            λ x below. same x below ∙ write_other m a x _ (omega arith),
          )
    ]

-- A change of memory from `a` up, at the chunk behind `xs`, leaves the chunks before it.
behind :
    (m g : Memory) (b a : ℕ) (xs cs ds : List Chunk) (last : ℕ)
    → a ≡ b + total xs
    → Lies m b (xs ++ cs) last
    → ((x : ℕ) → x < a → g x ≡ m x)
    → (Lies m a cs last → Lies g a ds last)
    → Lies g b (xs ++ ds) last
behind m g b a [] cs ds last e l low change =
    let same : a ≡ b = omega arith in rw same at (change (rw (← same) at l))
behind m g b a (c ∷ xs) cs ds last e l low change = (
  low b (omega arith) ∙ l.0,
  behind m g (b + 16 + c.size) a xs cs ds last (omega arith) l.1 low change,
)

Lies-at :
    (m : Memory) (b : ℕ) (xs cs : List Chunk) (last : ℕ)
    → Lies m b (xs ++ cs) last
    → Lies m (b + total xs) cs last
Lies-at m b [] cs last l = let e : b + 0 ≡ b = omega arith in rw e l
Lies-at m b (c ∷ xs) cs last l =
    let e : b + (16 + c.size + total xs) ≡ b + 16 + c.size + total xs = omega arith in
    rw e (Lies-at m (b + 16 + c.size) xs cs last l.1)

-- `free` of the address that belongs to a chunk ends, and the heap then stands for the chunks in
-- which that one is free and merged with the free chunks directly behind it.
pub free_block-absorb :
    (h : UserHeap) (xs : List Chunk) (n : ℕ) (ys : List Chunk)
    → IsHeap h (xs ++ (chunk n false ∷ ys))
    → (g : UserHeap) × (free_block (h.start + total xs + 16) h ≡ some g)
      × IsHeap g (xs ++ absorb n ys)
      × (g.start ≡ h.start)
unfolding free_block write
free_block-absorb h xs n ys v =
    let a = h.start + total xs in
    let at = Lies-at h.mem h.start xs (chunk n false ∷ ys) h.last v.lies in
    let span = total_lem h.mem a (chunk n false ∷ ys) h.last at in
    let few = length-total ys in
    let e : sub32 (a + 16) h.data_size ≡ a = omega (arith, v.header, v.fits, span) in
    let m = write h.mem a (record (h.mem a) { free = true }) in
    let marked : Lies m a (chunk n true ∷ ys) h.last = (
      ground (arith, at.0),
      frame h.mem m (a + 16 + n) ys h.last (λ x far. write_other h.mem a x _ (omega arith)) at.1,
    ) in
    let (g, run, lies, same) =
      merge-Lies ((h.last - h.start) / 16 + 1) m a n ys h.last marked v.fits
        (omega (arith, span, few)) in
    (
      record h { mem = g },
      ground (arith, e, run, v.header, v.not_null),
      record {
        header = v.header;
        not_null = v.not_null;
        lies =
            behind h.mem g h.start a xs (chunk n false ∷ ys) (absorb n ys) h.last refl v.lies
              (λ x below. same x below ∙ write_other h.mem a x _ (omega arith)) (λ _. lies);
        fits = v.fits;
      },
      refl,
    )
