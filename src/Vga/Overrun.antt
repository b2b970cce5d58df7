-- ===== src/Vga/Overrun.antt =====
-- `new_line` of kernel/cpp/VgaController.cpp on a last line that is empty.
use stable_genius.Common.{
  ℕ, zero, suc, ◌+◌, ◌-◌, ◌/◌, ◌≡◌, ◌∙◌, ◌≤◌, ◌<◌, refl, true, false, not, ◌&&◌, ltb, leb, ◌==◌,
  if◌then◌else◌, arith, first_from-eq-none,
}
use stable_genius.Vga.{
  Vga, cursor_max, cell_char, blank, put_cell, set_pos_at, move_up, fill_cells, chars_from,
  last_line_occupied, lines_down, break_line, open_line, new_line_at, new_line,
}

fill_cells-lem :
    (n i v x : ℕ) (b : ℕ → ℕ) → fill_cells n i v b x ≡ (if leb i x && ltb x (i + n) then v else b x)
unfolding fill_cells put_cell
fill_cells-lem zero i v x b = ground arith
fill_cells-lem (suc n) i v x b = ground (arith, fill_cells-lem n (i + 1) v x (put_cell i v b))

-- No character stands on the last line of a screen of 80 columns.
abbrev pub LastLineEmpty : Vga → Type 0
LastLineEmpty s = (i : ℕ) → 1920 ≤ i → i < 2000 → cell_char (s.buffer i) ≡ 0

not_occupied : (s : Vga) → s.width ≡ 80 → LastLineEmpty s → last_line_occupied s ≡ false
unfolding last_line_occupied
not_occupied s w empty =
    let none_found =
      first_from-eq-none (λ i. not (cell_char (s.buffer i) == 0)) 80 1920
        λ i above below. let gap = empty i above (omega arith) in ground arith in
    rw (w, none_found) refl

no_chars : (n p : ℕ) (s : Vga) → 1920 ≤ p → p < 2000 → LastLineEmpty s → chars_from n p s.buffer ≡ 0
unfolding chars_from
no_chars zero p s above below empty = refl
no_chars (suc n) p s above below empty = rw (empty p above below) refl

new_line_at-opens :
    (p : ℕ) (s : Vga)
    → s.width ≡ 80
    → 1920 ≤ p
    → p < 2000
    → LastLineEmpty s
    → new_line_at p s ≡ open_line true p 0 s
unfolding new_line_at
new_line_at-opens p s w above below empty =
    let chars = no_chars (cursor_max + 1 - p) p s above below empty in
    ground (arith, chars, w, not_occupied s w empty)

lines_down-tail :
    (p x : ℕ) (s : Vga)
    → s.width ≡ 80
    → 1920 ≤ p
    → p < 2000
    → 2000 ≤ x
    → x < 2080
    → (lines_down p 0 s).buffer x ≡ blank s
unfolding lines_down
lines_down-tail p x s w above below from to =
    let start : (p + 0) / 80 + 1 ≡ 25 = omega arith in
    let inside : (leb 2000 x && ltb x 2080) ≡ true = ground arith in
    let b = move_up (cursor_max + 1 - 2080) 2080 80 s.buffer in
    rw (w, start) (fill_cells-lem 80 2000 (blank s) x b ∙ rw inside refl)

break_line-tail :
    (p x : ℕ) (s : Vga)
    → s.width ≡ 80
    → 1920 ≤ p
    → p < 2000
    → 2000 ≤ x
    → (break_line p 0 s).buffer x ≡ s.buffer x
unfolding break_line move_up
break_line-tail p x s w above below from =
    let line : p / 80 + 1 ≡ 25 = omega arith in
    let outside : (leb p x && ltb x (p + (2000 - p))) ≡ false = ground arith in
    rw (w, line) (fill_cells-lem (2000 - p) p (blank s) x s.buffer ∙ rw outside refl)

lines_down_width : (p : ℕ) (s : Vga) → (lines_down p 0 s).width ≡ s.width
unfolding lines_down
lines_down_width p s = refl

open_line-tail :
    (p x : ℕ) (s : Vga)
    → s.width ≡ 80
    → 1920 ≤ p
    → p < 2000
    → 2000 ≤ x
    → x < 2080
    → (open_line true p 0 s).buffer x ≡ blank s
unfolding open_line
open_line-tail p x s w above below from to =
    break_line-tail p x (lines_down p 0 s) (lines_down_width p s ∙ w) above below from
    ∙ lines_down-tail p x s w above below from to

set_pos_at-below_screen : (row column : ℕ) (s : Vga) → 25 ≤ row → set_pos_at row column s ≡ s
unfolding set_pos_at
set_pos_at-below_screen row column s h = ground arith

open_line-cursor :
    (p : ℕ) (s : Vga)
    → ((open_line true p 0 s).cursor_pos ≡ s.cursor_pos) × ((open_line true p 0 s).width ≡ s.width)
unfolding open_line break_line lines_down
open_line-cursor p s = (refl, refl)

new_line-opens :
    (s : Vga)
    → s.width ≡ 80
    → 1920 ≤ s.cursor_pos
    → s.cursor_pos < 2000
    → LastLineEmpty s
    → new_line s ≡ open_line true s.cursor_pos 0 s
unfolding new_line
new_line-opens s w above below empty =
    let t = open_line true s.cursor_pos 0 s in
    let (cursor, width) = open_line-cursor s.cursor_pos s in
    let columns : t.width ≡ 80 = width ∙ w in
    let row : 25 ≤ t.cursor_pos / t.width + 1 = rw (cursor, columns) (omega arith) in
    rw (new_line_at-opens s.cursor_pos s w above below empty)
      (set_pos_at-below_screen (t.cursor_pos / t.width + 1) 0 t row)

-- On a screen of 80 columns whose last line is empty, a new line anywhere in that line writes blanks to all 80
-- cells behind the end of the framebuffer, and `new_line()` leaves the cursor where it stands.
pub new_line-overruns :
    (x : ℕ) (s : Vga)
    → s.width ≡ 80
    → 1920 ≤ s.cursor_pos
    → s.cursor_pos < 2000
    → LastLineEmpty s
    → 2000 ≤ x
    → x < 2080
    → ((new_line s).buffer x ≡ blank s) × ((new_line s).cursor_pos ≡ s.cursor_pos)
new_line-overruns x s w above below empty from to =
    let (cursor, _) = open_line-cursor s.cursor_pos s in
    rw (new_line-opens s w above below empty)
      (open_line-tail s.cursor_pos x s w above below from to, cursor)
