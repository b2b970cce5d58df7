-- ===== src/KernelHeap/Chain.antt =====
-- The blocks of the kernel's heap as a chain from its start to its last block, and the two searches
-- along it.
use stable_genius.Common.{
  ℕ, zero, suc, ◌+◌, ◌*◌, ◌^◌, ◌≤◌, ◌<◌, ◌≡◌, refl, true, false, not, ◌||◌, some, ◌⊎◌, inl, inr,
  ltb, leb, ◌==◌, arith, Bool-cases, ◌∙◌,
}
use stable_genius.UserHeap.{add32, sub32}
use stable_genius.KernelHeap.{
  KernelMemory, KernelHeap, round_up, aligned_scan, place_space, block_rounds, take_found,
  split_end,
}
use stable_genius.KernelHeap.Malloc.{find_prev}
use stable_genius.KernelHeap.Overrun.{place_space-address, place_space-data_size}
use stable_genius.KernelHeap.Words.{
  Multiple, round_up-Multiple, round_up-le, round_up-lt, add32-sub32,
}

-- `n` blocks from an address up to the last block, each behind the one before. The space of a free
-- block reaches the first address in it that is aligned.
abbrev pub Chain : KernelMemory → (power last n cur : ℕ) → Type 0
Chain m power last zero cur = (cur ≡ last) × ((m cur).next ≡ 0)
Chain m power last (suc n) cur =
    ((m cur).next ≡ cur + 16 + (m cur).size)
    × ((m cur).free ≡ true → round_up power (cur + 16) ≤ cur + 16 + (m cur).size)
    × Chain m power last n (m cur).next

pub Chain-le :
    (m : KernelMemory) (power last n cur : ℕ) → Chain m power last n cur → cur + 16 * n ≤ last
Chain-le m power last zero cur c = omega arith
Chain-le m power last (suc n) cur c = omega (arith, Chain-le m power last n (m cur).next c.2)

pub Chain-last :
    (m : KernelMemory) (power last n cur : ℕ) → Chain m power last n cur → (m last).next ≡ 0
Chain-last m power last zero cur c = rw (← c.0) c.1
Chain-last m power last (suc n) cur c = Chain-last m power last n (m cur).next c.2

-- A heap whose blocks are chained, with room for the alignment behind the last one
pub record IsLinked (power : ℕ) (h : KernelHeap) : Type 0 where
  pub header : h.data_size ≡ 16
  pub blocks : ℕ
  pub chain : Chain h.mem power h.last blocks h.start
  pub room : h.last + 16 + 2 ^ power ≤ 2 ^ 32

pub blocks-lt-rounds :
    (power : ℕ) (h : KernelHeap) (l : IsLinked power h) → l.blocks < block_rounds h
unfolding block_rounds
blocks-lt-rounds power h l =
    let le = Chain-le h.mem power h.last l.blocks h.start l.chain in omega (arith, le)

-- The end of the aligned search: the last block of the heap as it was, or a block before it whose
-- data is aligned
abbrev pub Found : (power : ℕ) → KernelHeap → KernelHeap × ℕ → Type 0
Found power h r =
    (r ≡ (h, h.last))
    ⊎ (Multiple (2 ^ power) (add32 r.1 16)
        × (r.1 < h.last)
        × (r.0.data_size ≡ 16)
        × (r.0.last ≡ h.last))

module _ (power size : ℕ) (h : KernelHeap) (low : power ≤ 32) (header : h.data_size ≡ 16)
    (room : h.last + 16 + 2 ^ power ≤ 2 ^ 32) where
  place_space-Found :
      (prev cur e : ℕ)
      → round_up power (cur + 16) ≤ e
      → e ≤ h.last
      → cur + 16 ≤ e
      → Found power h (place_space prev cur (cur + 16) (round_up power (cur + 16)) e h)
  unfolding place_space
  place_space-Found prev cur e fits short long =
      let aligned = round_up-Multiple power (cur + 16) low in
      let (above, _) = round_up-le power (cur + 16) (omega arith) (omega arith) in
      elim (Bool-cases (round_up power (cur + 16) == cur + 16)) [
        | inl same ↦
            let s : round_up power (cur + 16) ≡ cur + 16 = ground (arith, same) in
            let plain : add32 cur 16 ≡ cur + 16 = omega arith in
            inr (rw same (rw plain (rw s at aligned), omega arith, header, refl))
        | inr other ↦
            let as' = round_up power (cur + 16) in
            let at : (place_space prev cur (cur + 16) as' e h).1 ≡ sub32 as' 16 =
              place_space-address prev cur (cur + 16) as' e h (ground (arith, other))
              ∙ rw header refl in
            let (ds, last) = place_space-data_size prev cur (cur + 16) as' e h in
            let back = add32-sub32 as' 16 (round_up-lt power (cur + 16)) (omega arith) in
            let down : sub32 as' 16 < h.last = omega (arith, fits, short, above) in
            inr (rw (at, back) aligned, rw at down, ds ∙ header, last)
      ]

  pub aligned_scan-Found :
      (n f prev cur : ℕ)
      → Chain h.mem power h.last n cur
      → n < f
      → (r : KernelHeap × ℕ) × (aligned_scan f power size h prev cur ≡ some r) × Found power h r
  unfolding aligned_scan
  aligned_scan-Found n zero prev cur c more = absurd (omega arith)
  aligned_scan-Found zero (suc f) prev cur c more = ((h, cur), ground (arith, c), inl (rw c.0 refl))
  aligned_scan-Found (suc n) (suc f) prev cur c more =
      let b = h.mem cur in
      let le = Chain-le h.mem power h.last n b.next c.2 in
      let s : add32 cur h.data_size ≡ cur + 16 = omega (arith, le, c.0, header) in
      let e : add32 (cur + 16) b.size ≡ cur + 16 + b.size = omega (arith, le, c.0) in
      let as' = round_up power (cur + 16) in
      let end = cur + 16 + b.size in
      let linked : (b.next == 0) ≡ false = ground (arith, c.0) in
      let (r, eq, found) = aligned_scan-Found n f cur b.next c.2 (omega arith) in
      elim (Bool-cases (not b.free || ltb b.size size)) [
        | inl skip ↦ (r, rw (s, e, linked, skip) eq, found)
        | inr good ↦ elim (Bool-cases (leb size (sub32 end as'))) [
          | inl fits ↦
              let free' : b.free ≡ true = ground (arith, good) in
              (
                place_space prev cur (cur + 16) as' end h,
                rw (s, e, linked, good, fits) refl,
                place_space-Found prev cur end (c.1 free') (omega (arith, le, c.0)) (omega arith),
              )
          | inr tight ↦ (r, rw (s, e, linked, good, tight) eq, found)
        ]
      ]

-- The search for the block before the last one, in a memory that agrees with the chain's
pub find_prev-ends :
    (m g : KernelMemory) (power last n f cur : ℕ)
    → Chain m power last (suc n) cur
    → ((x : ℕ) → x ≤ last → g x ≡ m x)
    → suc n ≤ f
    → (prev : ℕ) × (find_prev f g cur last ≡ some prev)
unfolding find_prev
find_prev-ends m g power last n zero cur c same more = absurd (omega arith)
find_prev-ends m g power last zero (suc f) cur c same more =
    let le = Chain-le m power last 0 (m cur).next c.2 in
    let here : g cur ≡ m cur = same cur (omega (arith, le, c.0)) in
    (cur, rw here (ground (arith, c.2.0)))
find_prev-ends m g power last (suc n) (suc f) cur c same more =
    let le = Chain-le m power last (suc n) (m cur).next c.2 in
    let here : g cur ≡ m cur = same cur (omega (arith, le, c.0)) in
    let (prev, eq) = find_prev-ends m g power last n f (m cur).next c.2 same (omega arith) in
    elim (Bool-cases ((m cur).next == last)) [
      | inl found ↦ (cur, rw (here, found) refl)
      | inr not_yet ↦ (prev, rw (here, not_yet) eq)
    ]

-- At the last block nothing is split or taken.
pub found-last :
    (size c : ℕ) (h : KernelHeap) → (h.mem c).next ≡ 0 → take_found (split_end size (h, c)) ≡ (h, c)
unfolding take_found split_end
found-last size c h last = ground (arith, last)
