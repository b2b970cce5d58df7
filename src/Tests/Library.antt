-- ===== src/Tests/Library.antt =====
-- The user heap and the character classes at concrete inputs.
use stable_genius.Common.{
  ℕ, ◌+◌, ◌≡◌, refl, true, false, some, List, [], ◌∷◌, ◌++◌, inl, inr, arith,
}
use stable_genius.Common.Int.{pos}
use stable_genius.UserHeap.{UserHeap, Memory, write, malloc, free_block}
use stable_genius.UserHeap.Layout.{Chunk, chunk, IsHeap}
use stable_genius.UserHeap.Scan.{place, offset, any_serves}
use stable_genius.UserHeap.Malloc
use stable_genius.UserHeap.Free
use stable_genius.UserHeap.Free.{absorb}
use stable_genius.UserHeap.Blocks
use stable_genius.UserHeap.Blocks.{blocks, Adds, AllApart}
use stable_genius.Ctype.Classes
use stable_genius.Ctype.Classes.{punct, truth, class_of, in_class}

abbrev zeroed : Memory
zeroed a = record { size = 0; next = 0; free = false }

-- A heap at 4096 with two chunks of 32 bytes, the second of which is free.
abbrev two_chunks : UserHeap
two_chunks = record {
  start = 4096;
  last = 4192;
  data_size = 16;
  mem =
      write
        (write (write zeroed 4192 (record { size = 0; next = 0; free = true })) 4144
          (record { size = 32; next = 4192; free = true }))
        4096 (record { size = 32; next = 4144; free = false });
}

abbrev chunks : List Chunk
chunks = chunk 32 false ∷ chunk 32 true ∷ []

two_chunks-IsHeap : IsHeap two_chunks chunks
unfolding write
two_chunks-IsHeap = record {
  header = refl;
  not_null = omega arith;
  lies = (refl, (refl, (refl, refl)));
  fits = omega arith;
}

malloc-place_example :
    (g : UserHeap) × (malloc (λ a. false) 20 two_chunks ≡ some (g, 4096 + offset 32 chunks + 16))
    × IsHeap g (place 32 chunks)
    × (g.start ≡ 4096)
unfolding any_serves
malloc-place_example =
    Malloc.malloc-place (λ a. false) 20 two_chunks chunks two_chunks-IsHeap (omega arith)
      (omega arith) (inl refl)

malloc-Adds_example :
    (g : UserHeap) × (p : ℕ) × (ds : List Chunk) × (malloc (λ a. true) 100 two_chunks ≡ some (g, p))
    × IsHeap g ds
    × (g.start ≡ 4096)
    × Adds p 100 (blocks 4096 chunks) (blocks 4096 ds)
    × AllApart (4096 + 16) (blocks 4096 ds)
malloc-Adds_example =
    Blocks.malloc-Adds (λ a. true) 100 two_chunks chunks two_chunks-IsHeap (omega arith)
      (omega arith) (inr refl)

free_block-absorb_example :
    (g : UserHeap) × (free_block (4096 + 0 + 16) two_chunks ≡ some g)
    × IsHeap g ([] ++ absorb 32 (chunk 32 true ∷ []))
    × (g.start ≡ 4096)
free_block-absorb_example =
    Free.free_block-absorb two_chunks [] 32 (chunk 32 true ∷ []) two_chunks-IsHeap

free_block-blocks_example :
    (g : UserHeap) × (ds : List Chunk) × (free_block 4112 two_chunks ≡ some g)
    × IsHeap g ds
    × (blocks 4096 chunks ≡ [] ++ ((4112, 32) ∷ blocks 4144 (chunk 32 true ∷ [])))
    × (blocks g.start ds ≡ [] ++ blocks 4144 (chunk 32 true ∷ []))
free_block-blocks_example =
    Blocks.free_block-blocks two_chunks [] 32 (chunk 32 true ∷ []) two_chunks-IsHeap

class_of-in_class_example : truth (class_of punct (pos b'!')) ≡ in_class punct b'!'
class_of-in_class_example = Classes.class_of-in_class punct b'!'
