-- ===== src/Vga/Written.antt =====
-- `write_char` of kernel/cpp/VgaController.cpp on a text that fits before the end of the screen.
use stable_genius.Common.{
  ℕ, zero, suc, ◌+◌, ◌-◌, ◌≡◌, ◌≤◌, ◌<◌, refl, ◌∙◌, Bool, true, false, not, ◌&&◌, List, [], ◌∷◌,
  ltb, ◌==◌, if◌then◌else◌, length, arith,
}
use native.Mathlib.Decide.{dec_lt, ℕ_discrete}
use stable_genius.Common.Int.{pos}
use stable_genius.Ctype.{isprint}
use stable_genius.Vga.{
  Vga, VgaWriteMode, overwrite, cursor_max, cell_value, cell_char, put_cell, set_pos, advance,
  print_cell, in_mode, putchar, write_char, write_text,
}

-- A byte that `isprint` accepts
abbrev pub printable : ℕ → Bool
printable c = ltb c 256 && not (isprint (pos c) == 0)

abbrev pub all_printable : List ℕ → Bool
all_printable [] = true
all_printable (c ∷ cs) = printable c && all_printable cs

-- The character of a text at a place
abbrev pub char_at : List ℕ → ℕ → ℕ
char_at [] i = 0
char_at (c ∷ cs) zero = c
char_at (c ∷ cs) (suc i) = char_at cs i

cell_char-cell_value : (c fg bg : ℕ) → c < 256 → cell_char (cell_value c fg bg) ≡ c
unfolding cell_value
cell_char-cell_value c fg bg h = omega arith

-- The state behind a character that is printed before the last cell
abbrev typed : ℕ → Vga → Vga
typed c s = record s {
  buffer = put_cell s.cursor_pos (cell_value c s.foreground s.background) s.buffer;
  cursor_pos = s.cursor_pos + 1;
}

print_cell-before_end :
    (v : ℕ) (s : Vga)
    → s.cursor_pos < cursor_max
    → print_cell v s
      ≡ record s { buffer = put_cell s.cursor_pos v s.buffer; cursor_pos = s.cursor_pos + 1 }
unfolding print_cell advance set_pos
print_cell-before_end v s h =
    let inside : (s.cursor_pos == cursor_max) ≡ false = ground arith in
    let fits : ltb cursor_max (s.cursor_pos + 1) ≡ false = ground arith in rw (inside, fits) refl

in_mode-overwrite : (m : VgaWriteMode) (s : Vga) → m ≡ overwrite → in_mode m s ≡ s
unfolding in_mode
in_mode-overwrite m s e = rw e refl

write_char-typed :
    (c : ℕ) (s : Vga)
    → s.write_mode ≡ overwrite
    → s.cursor_pos < cursor_max
    → printable c ≡ true
    → write_char c s ≡ typed c s
unfolding write_char putchar
write_char-typed c s mode h e =
    let shown : cell_char (cell_value c s.foreground s.background) ≡ c =
      cell_char-cell_value c s.foreground s.background (ground arith) in
    let accepted : (isprint (pos c) == 0) ≡ false = ground arith in
    rw (shown, accepted, in_mode-overwrite s.write_mode s mode)
      (print_cell-before_end (cell_value c s.foreground s.background) s h)

write_text-step :
    (c : ℕ) (cs : List ℕ) (s : Vga)
    → write_char c s ≡ typed c s
    → write_text (c ∷ cs) s ≡ write_text cs (typed c s)
unfolding write_text
write_text-step c cs s e = rw e refl

-- The cell `x` of a text from place `p` on, over what stood there
abbrev over : (cs : List ℕ) (p : ℕ) (s : Vga) (x old : ℕ) → ℕ
over cs p s x old =
    if ltb x p
    then old
    else if ltb x (p + length cs)
    then cell_value (char_at cs (x - p)) s.foreground s.background
    else old

char_at-cons : (c : ℕ) (cs : List ℕ) (i : ℕ) → char_at (c ∷ cs) (suc i) ≡ char_at cs i
char_at-cons c cs i = refl

over-cons :
    (c : ℕ) (cs : List ℕ) (p x old : ℕ) (s : Vga)
    → over cs (p + 1) s x (if x == p then cell_value c s.foreground s.background else old)
      ≡ over (c ∷ cs) p s x old
over-cons c cs p x old s = elim (ℕ_discrete x p) [
  | yes e ↦ let place : x - p ≡ 0 = omega arith in rw place (ground arith)
  | no ne ↦ elim (dec_lt x p) [
    | yes below ↦ ground (arith, ne)
    | no above ↦
        let place : x - p ≡ suc (x - (p + 1)) = omega (arith, ne) in rw place (ground (arith, ne))
  ]
]

-- In the overwrite mode a text of printable characters that ends before the last cell of the screen
-- stands behind `write_char` from the cursor on, in the current colours; the cursor is behind it, and
-- all other cells are as before.
pub write_text-written :
    (cs : List ℕ) (x : ℕ) (s : Vga)
    → s.write_mode ≡ overwrite
    → s.cursor_pos + length cs ≤ cursor_max
    → all_printable cs ≡ true
    → ((write_text cs s).cursor_pos ≡ s.cursor_pos + length cs)
      × ((write_text cs s).buffer x ≡ (
          if ltb x s.cursor_pos
          then s.buffer x
          else if ltb x (s.cursor_pos + length cs)
          then cell_value (char_at cs (x - s.cursor_pos)) s.foreground s.background
          else s.buffer x))
unfolding put_cell
write_text-written [] x s mode fits e = unfold write_text in (omega arith, ground arith)
write_text-written (c ∷ cs) x s mode fits e =
    let step = write_text-step c cs s (write_char-typed c s mode (omega arith) (ground arith)) in
    let (cursor, cell) = write_text-written cs x (typed c s) mode (omega arith) (ground arith) in
    rw step (omega (arith, cursor), cell ∙ over-cons c cs s.cursor_pos x (s.buffer x) s)
