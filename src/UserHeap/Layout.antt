-- ===== src/UserHeap/Layout.antt =====
-- What the linked blocks stand for: a list of chunks that lie one behind the other.
use stable_genius.Common.{
  ℕ, ◌+◌, ◌*◌, ◌^◌, ◌≡◌, ◌<◌, ◌≤◌, Bool, true, List, [], ◌∷◌, ◌∙◌, arith, length,
}
use stable_genius.UserHeap.{Memory, UserHeap, write, user_heap, add32}

pub record Chunk : Type 0 where
  pub size : ℕ
  pub free : Bool

abbrev pub chunk : ℕ → Bool → Chunk
chunk n f = record { size = n; free = f }

-- The bytes that a list of chunks takes, headers included.
abbrev pub total : List Chunk → ℕ
total [] = 0
total (c ∷ cs) = 16 + c.size + total cs

-- From address `a` the headers in memory describe the chunks, one behind the other, and behind them
-- stands the empty last block.
abbrev pub Lies : Memory → ℕ → List Chunk → ℕ → Type 0
Lies m a [] last = (a ≡ last) × (m a ≡ record { size = 0; next = 0; free = true })
Lies m a (c ∷ cs) last =
    (m a ≡ record { size = c.size; next = a + 16 + c.size; free = c.free })
    × Lies m (a + 16 + c.size) cs last

-- The invariant of a heap that stands for the chunks.
pub record IsHeap (h : UserHeap) (cs : List Chunk) : Type 0 where
  pub header : h.data_size ≡ 16
  pub not_null : 0 < h.start
  pub lies : Lies h.mem h.start cs h.last
  pub fits : h.last + 16 < 2 ^ 32

-- The description reads no header below `a`.
pub frame :
    (m g : Memory) (a : ℕ) (cs : List Chunk) (last : ℕ)
    → ((x : ℕ) → a ≤ x → g x ≡ m x)
    → Lies m a cs last
    → Lies g a cs last
frame m g a [] last same l = (l.0, same a (omega arith) ∙ l.1)
frame m g a (c ∷ cs) last same l = (
  same a (omega arith) ∙ l.0,
  frame m g (a + 16 + c.size) cs last (λ x h. same x (omega arith)) l.1,
)

pub total_lem :
    (m : Memory) (a : ℕ) (cs : List Chunk) (last : ℕ) → Lies m a cs last → a + total cs ≡ last
total_lem m a [] last l = omega arith
total_lem m a (c ∷ cs) last l = omega (arith, total_lem m (a + 16 + c.size) cs last l.1)

pub length-total : (cs : List Chunk) → 16 * length cs ≤ total cs
length-total [] = omega arith
length-total (c ∷ cs) = omega (arith, length-total cs)

-- The constructor gives an empty heap, if its address is not null, leaves room below 4GB, and the
-- system grants the first header.
pub user_heap-IsHeap :
    (brk : ℕ → Bool) (s : ℕ) (m : Memory)
    → 0 < s
    → s + 16 < 2 ^ 32
    → brk (s + 16) ≡ true
    → IsHeap (user_heap brk s m) [] × ((user_heap brk s m).start ≡ s)
unfolding user_heap write
user_heap-IsHeap brk s m pos room granted =
    let e : add32 s 16 ≡ s + 16 = omega arith in
    (
      record {
        header = ground (arith, e, granted);
        not_null = ground (arith, e, granted, pos);
        lies = (ground (arith, e, granted), ground (arith, e, granted));
        fits = ground (arith, e, granted, room);
      },
      ground (arith, e, granted),
    )
