-- ===== src/UserHeap/Scan.antt =====
-- The loop of `find_free_block`: it ends at the first chunk that is free and large enough, or at the
-- last block.
use stable_genius.Common.{
  ℕ, zero, suc, ◌+◌, ◌-◌, ◌≡◌, ◌<◌, ◌≤◌, refl, Bool, true, false, not, ◌&&◌, ◌||◌, some, List, [],
  ◌∷◌, ◌++◌, arith, ltb, leb, if◌then◌else◌, ◌==◌, length, Bool-cases, inl, inr, ◌∙◌,
}
use stable_genius.UserHeap.{BlockData, Memory, scan}
use stable_genius.UserHeap.Layout.{Chunk, chunk, Lies, total_lem}

-- A chunk that serves a request of `n` bytes.
abbrev pub serves : ℕ → Chunk → Bool
serves n c = c.free && leb n c.size

-- `cur` is where the search for `n` bytes ends among the chunks from `a`.
pub data Located (n : ℕ) : (a : ℕ) → List Chunk → ℕ → Type 0 where
  at_end : {a : ℕ} → Located n a [] a
  here : {a : ℕ} {c : Chunk} {cs : List Chunk} → serves n c ≡ true → Located n a (c ∷ cs) a
  later :
      {a cur : ℕ} {c : Chunk} {cs : List Chunk}
      → serves n c ≡ false
      → Located n (a + 16 + c.size) cs cur
      → Located n a (c ∷ cs) cur

scan_step :
    (fuel : ℕ) (m : Memory) (n a : ℕ) (b : BlockData)
    → m a ≡ b
    → scan (suc fuel) m n a
      ≡ (if not (b.next == 0) && (ltb b.size n || not b.free) then scan fuel m n b.next else some a)
unfolding scan
scan_step fuel m n a b e = rw e refl

pub scan-Located :
    (fuel : ℕ) (m : Memory) (n a : ℕ) (cs : List Chunk) (last : ℕ)
    → Lies m a cs last
    → length cs < fuel
    → (cur : ℕ) × (scan fuel m n a ≡ some cur) × Located n a cs cur
scan-Located zero m n a cs last l enough = absurd (omega arith)
scan-Located (suc fuel) m n a [] last l enough = (a, scan_step fuel m n a _ l.1, at_end)
scan-Located (suc fuel) m n a (c ∷ cs) last l enough =
    let step = scan_step fuel m n a _ l.0 in
    elim (Bool-cases (serves n c)) [
      | inl fit ↦ (a, ground (arith, step), here fit)
      | inr unfit ↦
          let (cur, e, at) = scan-Located fuel m n (a + 16 + c.size) cs last l.1 (omega arith) in
          (cur, ground (arith, step, e), later unfit at)
    ]

-- The chunks once `n` bytes are taken: the first chunk that serves is claimed, and split if 32 bytes
-- are left over; otherwise a chunk is added behind the others.
unfoldable pub carve : ℕ → Chunk → List Chunk
carve n c =
    if leb (n + 32) c.size
    then chunk n false ∷ chunk (c.size - n - 16) true ∷ []
    else chunk c.size false ∷ []

unfoldable pub place : ℕ → List Chunk → List Chunk
place n [] = chunk n false ∷ []
place n (c ∷ cs) = if serves n c then carve n c ++ cs else c ∷ place n cs

-- The offset of the chunk taken, from the first header.
unfoldable pub offset : ℕ → List Chunk → ℕ
offset n [] = 0
offset n (c ∷ cs) = if serves n c then 0 else 16 + c.size + offset n cs

-- Whether some chunk serves.
unfoldable pub any_serves : ℕ → List Chunk → Bool
any_serves n [] = false
any_serves n (c ∷ cs) = serves n c || any_serves n cs

-- A change of memory from `cur` up, which leaves the taken chunk there, gives the chunks of `place`.
pub replace :
    (m g : Memory) (n a : ℕ) (cs : List Chunk) (cur last end : ℕ)
    → Located n a cs cur
    → Lies m a cs last
    → ((x : ℕ) → x < cur → g x ≡ m x)
    → ((a' : ℕ) (c : Chunk) (rest : List Chunk)
        → a' ≡ cur
        → Lies m a' (c ∷ rest) last
        → serves n c ≡ true
        → Lies g a' (carve n c ++ rest) end)
    → (cur ≡ last → Lies g cur (chunk n false ∷ []) end)
    → (cur ≡ a + offset n cs) × Lies g a (place n cs) end
unfolding place offset
replace m g n a [] cur last end at_end l low mid top = (omega arith, top l.0)
replace m g n a (c ∷ cs) cur last end (here fit) l low mid top =
    rw fit (omega arith, mid a c cs refl l fit)
replace m g n a (c ∷ cs) cur last end (later unfit at) l low mid top =
    let (e, rest) = replace m g n (a + 16 + c.size) cs cur last end at l.1 low mid top in
    rw unfit (omega (arith, e), (low a (omega (arith, e)) ∙ l.0, rest))

-- Where the search ends: at the last block if no chunk serves, and below it otherwise.
pub Located-end :
    (m : Memory) (n a : ℕ) (cs : List Chunk) (cur last : ℕ)
    → Located n a cs cur
    → Lies m a cs last
    → (if any_serves n cs then suc cur else cur) ≤ last
unfolding any_serves
Located-end m n a [] cur last at_end l = omega arith
Located-end m n a (c ∷ cs) cur last (here fit) l = ground (arith, total_lem m a (c ∷ cs) last l)
Located-end m n a (c ∷ cs) cur last (later unfit at) l =
    ground (arith, Located-end m n (a + 16 + c.size) cs cur last at l.1)

pub Located-last :
    (m : Memory) (n a : ℕ) (cs : List Chunk) (cur last : ℕ)
    → Located n a cs cur
    → Lies m a cs last
    → any_serves n cs ≡ false
    → cur ≡ last
unfolding any_serves
Located-last m n a [] cur last at_end l none_serves = l.0
Located-last m n a (c ∷ cs) cur last (here fit) l none_serves = absurd (ground arith)
Located-last m n a (c ∷ cs) cur last (later unfit at) l none_serves =
    Located-last m n (a + 16 + c.size) cs cur last at l.1 (ground arith)

pub Located-chunk :
    (m : Memory) (n a : ℕ) (cs : List Chunk) (cur last : ℕ)
    → Located n a cs cur
    → Lies m a cs last
    → any_serves n cs ≡ true
    → (c : Chunk) × (rest : List Chunk) × Lies m cur (c ∷ rest) last × (serves n c ≡ true)
unfolding any_serves
Located-chunk m n a [] cur last at_end l served = absurd (ground arith)
Located-chunk m n a (c ∷ cs) cur last (here fit) l served = (c, cs, l, fit)
Located-chunk m n a (c ∷ cs) cur last (later unfit at) l served =
    Located-chunk m n (a + 16 + c.size) cs cur last at l.1 (ground arith)
