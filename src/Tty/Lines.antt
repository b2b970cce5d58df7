-- ===== src/Tty/Lines.antt =====
-- The terminal is a queue of characters that is read by lines.
use stable_genius.Common.{
  ℕ, zero, suc, ◌+◌, ◌≡◌, refl, none, some, List, [], ◌∷◌, ◌++◌, ◌==◌, length, arith, Option-cases,
  inl, inr, ◌∙◌, ap, sym, if◌then◌else◌,
}
use mathlib.Core.List.{append_assoc, append-nil}
use stable_genius.Tty.{Tty, newline, find_newline, take, drop, end_pos, read_chars, add_char}

-- The position that the terminal keeps is that of the first newline in its buffer.
abbrev pub IsLined : Tty → Type 0
IsLined t = t.newline_pos ≡ find_newline t.buffer

take-drop : (n : ℕ) (cs : List ℕ) → take n cs ++ drop n cs ≡ cs
unfolding take drop
take-drop zero cs = refl
take-drop (suc n) [] = refl
take-drop (suc n) (c ∷ cs) = ap (λ r. c ∷ r) (take-drop n cs)

-- What a character at the end does to the first newline
find_newline-append :
    (cs : List ℕ) (c : ℕ)
    → find_newline (cs ++ c ∷ []) ≡ elim (find_newline cs) [
      | some p ↦ some p
      | none ↦ if c == newline then some (length cs) else none
    ]
unfolding find_newline
find_newline-append [] c = ground arith
find_newline-append (d ∷ cs) c = ground (arith, find_newline-append cs c)

length_add : (cs : List ℕ) (c : ℕ) → length (cs ++ c ∷ []) ≡ length cs + 1
length_add [] c = refl
length_add (d ∷ cs) c = omega (arith, length_add cs c)

add_char-IsLined : (c : ℕ) (t : Tty) → IsLined t → IsLined (add_char c t).0
unfolding add_char
add_char-IsLined c t h =
    let e = find_newline-append t.buffer c in
    let n = length_add t.buffer c in ground (arith, e, n, h)

read_chars-IsLined : (count : ℕ) (t : Tty) → IsLined t → IsLined (read_chars count t).0
unfolding read_chars
read_chars-IsLined count t h = ground (arith, h)

read_chars-queue :
    (count : ℕ) (t : Tty) → (read_chars count t).1 ++ (read_chars count t).0.buffer ≡ t.buffer
unfolding read_chars
read_chars-queue count t = elim (Option-cases t.newline_pos) [
  | inl e ↦ ground (arith, e)
  | inr (p, e) ↦ ground (arith, e, take-drop (end_pos count p) t.buffer)
]

read_chars-screen : (count : ℕ) (t : Tty) → (read_chars count t).0.screen ≡ t.screen
unfolding read_chars
read_chars-screen count t = ground arith

add_char-queue :
    (c : ℕ) (t : Tty)
    → ((add_char c t).0.buffer ≡ t.buffer ++ c ∷ [])
      × ((add_char c t).0.screen ≡ t.screen ++ c ∷ [])
unfolding add_char
add_char-queue c t = (ground arith, ground arith)

-- What happens to a terminal: a character of the keyboard, or a process that reads.
pub data Event : Type 0 where
  typed : ℕ → Event
  asked : ℕ → Event

-- The characters that were typed, and the terminal behind the events with the characters read from it.
unfoldable pub all_typed : List Event → List ℕ
all_typed [] = []
all_typed (typed c ∷ es) = c ∷ all_typed es
all_typed (asked count ∷ es) = all_typed es

unfoldable pub run : List Event → Tty → Tty × List ℕ
run [] t = (t, [])
run (typed c ∷ es) t = run es (add_char c t).0
run (asked count ∷ es) t =
    let (t', cs) = read_chars count t in let (u, more) = run es t' in (u, cs ++ more)

-- A terminal is a queue: behind any characters typed and any reads, the characters read and those
-- still in the buffer are those of the buffer at first and those typed, in their order, each of
-- them once; the screen has shown each one typed; and the position that the terminal keeps is
-- that of the first newline in its buffer. It asks that the position is so at first.
pub run-queue :
    (es : List Event) (t : Tty)
    → IsLined t
    → IsLined (run es t).0
      × ((run es t).1 ++ (run es t).0.buffer ≡ t.buffer ++ all_typed es)
      × ((run es t).0.screen ≡ t.screen ++ all_typed es)
unfolding run all_typed
run-queue [] t h = (h, sym (append-nil t.buffer), sym (append-nil t.screen))
run-queue (typed c ∷ es) t h =
    let t' = (add_char c t).0 in
    let (lined, queue, shown) = run-queue es t' (add_char-IsLined c t h) in
    let (b, s) = add_char-queue c t in
    (
      lined,
      queue ∙ rw b (append_assoc t.buffer (c ∷ []) (all_typed es)),
      shown ∙ rw s (append_assoc t.screen (c ∷ []) (all_typed es)),
    )
run-queue (asked count ∷ es) t h =
    let (t', cs) = read_chars count t in
    let (lined, queue, shown) = run-queue es t' (read_chars-IsLined count t h) in
    (
      lined,
      append_assoc cs (run es t').1 (run es t').0.buffer
          ∙ ap (λ r. cs ++ r) queue
          ∙ sym (append_assoc cs t'.buffer (all_typed es))
          ∙ ap (λ r. r ++ all_typed es) (read_chars-queue count t),
      shown ∙ ap (λ r. r ++ all_typed es) (read_chars-screen count t),
    )
