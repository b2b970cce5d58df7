-- ===== src/Tty.antt =====
-- kernel/cpp/Tty.cpp: a terminal, which gathers the characters of the keyboard in a buffer and hands them
-- out line by line. The position -1 of a newline is `none`; a buffer shorter than 2 ^ 31 is taken for
-- granted, as the source keeps the position in an `int`. The screen is the list of the characters
-- written to it.
pub mod Lines
use stable_genius.Common.{
  ℕ, zero, suc, ◌+◌, ◌-◌, Bool, true, false, Option, none, some, List, [], ◌∷◌, ◌++◌, ltb, ◌==◌,
  length, if◌then◌else◌,
}
use Prim.Native.Nat.{bit_and, bit_or}

pub record Tty : Type 0 where
  pub buffer : List ℕ
  pub newline_pos : Option ℕ
  pub screen : List ℕ

abbrev pub newline : ℕ
newline = 10

-- `buffer.find('\n')`
unfoldable pub find_newline : List ℕ → Option ℕ
find_newline [] = none
find_newline (c ∷ cs) =
    if c == newline then some 0 else elim (find_newline cs) [ none ↦ none | some p ↦ some (suc p) ]

-- `buffer.substr(0, n)` and `buffer.erase(0, n)`
unfoldable pub take : ℕ → List ℕ → List ℕ
take zero cs = []
take (suc n) [] = []
take (suc n) (c ∷ cs) = c ∷ take n cs

unfoldable pub drop : ℕ → List ℕ → List ℕ
drop zero cs = cs
drop (suc n) [] = []
drop (suc n) (c ∷ cs) = drop n cs

-- `poll_check(cond)`, with the bits of `PollType` for input and output
unfoldable pub poll_check : (pollin pollout cond : ℕ) → Tty → ℕ
poll_check pollin pollout cond t = elim t.newline_pos [
  | none ↦ bit_and cond pollout
  | some p ↦ bit_or (bit_and cond pollout) (bit_and cond pollin)
]

-- How much `read_chars(count)` reads at a newline
unfoldable pub end_pos : (count newline_pos : ℕ) → ℕ
end_pos count p = if count == 0 then p + 1 else if ltb (p + 1) count then p + 1 else count

unfoldable pub read_chars : (count : ℕ) → Tty → Tty × List ℕ
read_chars count t = elim t.newline_pos [
  | none ↦ (t, [])
  | some p ↦
      let rest = drop (end_pos count p) t.buffer in
      (record t { buffer = rest; newline_pos = find_newline rest }, take (end_pos count p) t.buffer)
]

-- `add_char(c)`; the Boolean says whether waiting processes are notified.
unfoldable pub add_char : ℕ → Tty → Tty × Bool
add_char c t =
    let added : Tty = record t { buffer = t.buffer ++ c ∷ []; screen = t.screen ++ c ∷ [] } in
    let size = length (t.buffer ++ c ∷ []) in
    if c == newline
    then elim t.newline_pos [
      | none ↦ (record added { newline_pos = some (size - 1) }, true)
      | some p ↦ (added, true)
    ]
    else (added, false)
