-- ===== src/UserHeap/Claim.antt =====
-- `find_free_block` against the chunks: it takes the first chunk that serves, and splits it where
-- enough is left.
use stable_genius.Common.{
  ℕ, ◌+◌, ◌-◌, ◌/◌, ◌^◌, ◌≡◌, ◌≢◌, ◌⊎◌, ◌<◌, ◌≤◌, true, false, some, List, [], ◌∷◌, ◌++◌, arith,
  leb, Bool-cases, inl, inr,
}
use stable_genius.UserHeap.{
  BlockData, Memory, UserHeap, write, split_block, claim_block, find_free_block,
}
use stable_genius.UserHeap.Layout.{Chunk, Lies, IsHeap, frame, total_lem, length-total}
use stable_genius.UserHeap.Scan.{
  serves, Located, scan-Located, carve, place, offset, any_serves, replace, Located-end,
  Located-last, Located-chunk,
}

pub write_self : (m : Memory) (a : ℕ) (b : BlockData) → write m a b a ≡ b
unfolding write
write_self m a b = ground arith

pub write_other : (m : Memory) (a x : ℕ) (b : BlockData) → x ≢ a → write m a b x ≡ m x
unfolding write
write_other m a x b ne = ground arith

-- The header that `find_free_block` leaves at the block it ends at, and behind it if it splits.
module _ (h : UserHeap) (n a : ℕ) (c : Chunk) (rest : List Chunk) (last : ℕ) (ds : h.data_size ≡ 16)
    (bound : last + 32 + n < 2 ^ 32) (fit : serves n c ≡ true)
    (l : Lies h.mem a (c ∷ rest) last) where
  abbrev after : Memory
  after = (claim_block (split_block n h a) a).mem

  claim_split-big :
      leb (n + 32) c.size ≡ true
      → (after a ≡ record { size = n; next = a + 16 + n; free = false })
        × (after (a + 16 + n)
            ≡ record { size = c.size - n - 16; next = a + 16 + c.size; free = true })
  unfolding split_block claim_block write
  claim_split-big big =
      let end = total_lem h.mem a (c ∷ rest) last l in
      let at = l.0 in (ground (arith, end, at), ground (arith, end, at))

  claim_split-small :
      leb (n + 32) c.size ≡ false
      → after a ≡ record { size = c.size; next = a + 16 + c.size; free = false }
  unfolding split_block claim_block write
  claim_split-small small =
      let end = total_lem h.mem a (c ∷ rest) last l in let at = l.0 in ground (arith, end, at)

  claim_split-other : (x : ℕ) → (x < a) ⊎ (a + 16 + c.size ≤ x) → after x ≡ h.mem x
  unfolding split_block claim_block write
  claim_split-other x out =
      let end = total_lem h.mem a (c ∷ rest) last l in let at = l.0 in ground (arith, end, at)

  claim_split-Lies : Lies after a (carve n c ++ rest) last
  unfolding carve
  claim_split-Lies =
      let behind =
        frame h.mem after (a + 16 + c.size) rest last (λ x far. claim_split-other x (inr far))
          l.1 in
      elim (Bool-cases (leb (n + 32) c.size)) [
        | inl big ↦
            let (first, second) = claim_split-big big in
            let e : a + 16 + n + 16 + (c.size - n - 16) ≡ a + 16 + c.size = ground arith in
            rw big (first, (rw e (second, behind)))
        | inr small ↦ rw small (claim_split-small small, behind)
      ]

-- The kept fields.
claim_split-fields :
    (h : UserHeap) (n a : ℕ)
    → let g = claim_block (split_block n h a) a in
      (g.start ≡ h.start) × (g.last ≡ h.last) × (g.data_size ≡ h.data_size)
unfolding split_block claim_block
claim_split-fields h n a = (ground arith, ground arith, ground arith)

-- `find_free_block` where no chunk serves changes nothing and ends at the last block.
claim_split-last :
    (h : UserHeap) (n a : ℕ) → (h.mem a).next ≡ 0 → claim_block (split_block n h a) a ≡ h
unfolding split_block claim_block
claim_split-last h n a e = ground (arith, e)

last_block :
    (m : Memory) (a : ℕ) (cs : List Chunk) (last : ℕ) → Lies m a cs last → (m last).next ≡ 0
last_block m a [] last l = ground (arith, l.0, l.1)
last_block m a (c ∷ cs) last l = last_block m (a + 16 + c.size) cs last l.1

-- What `find_free_block` gives: a claimed block below the end, or the unchanged heap and its end.
pub find_free_block-served :
    (h : UserHeap) (n : ℕ) (cs : List Chunk)
    → IsHeap h cs
    → h.last + 32 + n < 2 ^ 32
    → any_serves n cs ≡ true
    → (g : UserHeap) × (find_free_block n h ≡ some (g, h.start + offset n cs))
      × IsHeap g (place n cs)
      × (g.last ≡ h.last)
      × (g.start ≡ h.start)
      × (h.start + offset n cs < h.last)
unfolding find_free_block
find_free_block-served h n cs v bound served =
    let span = total_lem h.mem h.start cs h.last v.lies in
    let few = length-total cs in
    let (cur, e, at) =
      scan-Located ((h.last - h.start) / 16 + 1) h.mem n h.start cs h.last v.lies
        (omega (arith, span, few)) in
    let below : cur < h.last =
      ground (arith, Located-end h.mem n h.start cs cur h.last at v.lies) in
    let g : UserHeap = claim_block (split_block n h cur) cur in
    let (g_start, g_last, g_header) = claim_split-fields h n cur in
    let (c, rest, here_lies, fit) = Located-chunk h.mem n h.start cs cur h.last at v.lies served in
    let low : (x : ℕ) → x < cur → g.mem x ≡ h.mem x =
      λ x less. claim_split-other h n cur c rest h.last v.header bound fit here_lies x (inl less) in
    let (address, lies) =
      replace h.mem g.mem n h.start cs cur h.last h.last at v.lies low
        (λ a' c' rest' e' l' fit'.
          rw e' (claim_split-Lies h n cur c' rest' h.last v.header bound fit' (rw e' at l')))
        (λ e'. absurd (omega (arith, below))) in
    (
      g,
      ground (arith, e, address),
      record {
        header = omega (arith, g_header, v.header);
        not_null = omega (arith, g_start, v.not_null);
        lies = rw (g_start, g_last) lies;
        fits = omega (arith, g_last, v.fits);
      },
      g_last,
      g_start,
      omega (arith, address, below),
    )

pub find_free_block-unserved :
    (h : UserHeap) (n : ℕ) (cs : List Chunk)
    → IsHeap h cs
    → any_serves n cs ≡ false
    → (find_free_block n h ≡ some (h, h.last)) × Located n h.start cs h.last
unfolding find_free_block
find_free_block-unserved h n cs v unserved =
    let span = total_lem h.mem h.start cs h.last v.lies in
    let few = length-total cs in
    let (cur, e, at) =
      scan-Located ((h.last - h.start) / 16 + 1) h.mem n h.start cs h.last v.lies
        (omega (arith, span, few)) in
    let end : cur ≡ h.last = Located-last h.mem n h.start cs cur h.last at v.lies unserved in
    let same = claim_split-last h n h.last (last_block h.mem h.start cs h.last v.lies) in
    (ground (arith, e, end, same), rw end at at)
