-- ===== src/Vga.antt =====
-- kernel/cpp/VgaController.cpp with kernel/cpp/VgaCursor.cpp: the text display. The framebuffer is the function
-- from positions to the 16-bit values of the cells, also behind its end, where the code can write;
-- what goes to the ports of the display is left out. A character from 128 up, which is negative in
-- the source, is not printable either way.
pub mod Written
pub mod Overrun
use stable_genius.Common.{
  ℕ, zero, suc, ◌+◌, ◌-◌, ◌*◌, ◌/◌, ◌%◌, ◌^◌, Bool, true, false, not, List, [], ◌∷◌, ◌&&◌, ◌||◌,
  ltb, leb, ◌==◌, if◌then◌else◌, some, none, first_from, is_some,
}
use stable_genius.Common.Int.{pos}
use stable_genius.Ctype.{isprint}

-- `VgaCursor::cursor_max`, and the cursor's own width and height
abbrev pub cursor_max : ℕ
cursor_max = 1999

abbrev pub cursor_width : ℕ
cursor_width = 80

abbrev pub cursor_height : ℕ
cursor_height = 25

pub data VgaWriteMode : Type 0 where
  insert overwrite : VgaWriteMode

pub record Vga : Type 0 where
  pub buffer : ℕ → ℕ
  pub width : ℕ
  pub height : ℕ
  pub foreground : ℕ
  pub background : ℕ
  pub write_mode : VgaWriteMode
  pub cursor_pos : ℕ

-- `VgaCharacter{c, fg, bg}.val()` and `VgaCharacter{v}.ch()`
unfoldable pub cell_value : (c fg bg : ℕ) → ℕ
cell_value c fg bg = c % 2 ^ 8 + fg % 2 ^ 4 * 2 ^ 8 + bg % 2 ^ 4 * 2 ^ 12

abbrev pub cell_char : ℕ → ℕ
cell_char v = v % 2 ^ 8

abbrev pub blank : Vga → ℕ
blank s = cell_value 0 s.foreground s.background

-- `buffer[i] = v`
unfoldable pub put_cell : (i v : ℕ) → (ℕ → ℕ) → ℕ → ℕ
put_cell i v b x = if x == i then v else b x

-- `VgaCursor::set_pos(pos)` and `set_pos(row, column)`
unfoldable pub set_pos : ℕ → Vga → Vga
set_pos p s = if ltb cursor_max p then s else record s { cursor_pos = p }

unfoldable pub set_pos_at : (row column : ℕ) → Vga → Vga
set_pos_at row column s =
    if leb cursor_width column || leb cursor_height row
    then s
    else set_pos (row * cursor_width + column) s

-- `advance(n)` for `n` from 0 up
unfoldable pub advance : ℕ → Vga → Vga
advance n s =
    if ltb cursor_max (s.cursor_pos + n) then set_pos cursor_max s else set_pos (s.cursor_pos + n) s

-- `for (i = start; i < start + rounds; ++i) buffer[i] = buffer[i + distance];`
unfoldable pub move_down : (rounds start distance : ℕ) → (ℕ → ℕ) → ℕ → ℕ
move_down zero i d b = b
move_down (suc n) i d b = move_down n (i + 1) d (put_cell i (b (i + d)) b)

-- `for (i = first + rounds - 1; i >= first; --i) buffer[i] = buffer[i - distance];`
unfoldable pub move_up : (rounds first distance : ℕ) → (ℕ → ℕ) → ℕ → ℕ
move_up zero first d b = b
move_up (suc n) first d b = move_up n first d (put_cell (first + n) (b (first + n - d)) b)

-- `for (i = start; i < start + rounds; ++i) buffer[i] = v;`
unfoldable pub fill_cells : (rounds start v : ℕ) → (ℕ → ℕ) → ℕ → ℕ
fill_cells zero i v b = b
fill_cells (suc n) i v b = fill_cells n (i + 1) v (put_cell i v b)

-- How many characters stand from a position on without a gap, of `rounds` cells
unfoldable pub chars_from : (rounds i : ℕ) → (ℕ → ℕ) → ℕ
chars_from zero i b = 0
chars_from (suc n) i b =
    let rest = chars_from n (i + 1) b in if cell_char (b i) == 0 then 0 else suc rest

-- `clear()`
unfoldable pub clear : Vga → Vga
clear s = record s { buffer = fill_cells (cursor_max + 1) 0 (blank s) s.buffer }

-- `scroll()`
unfoldable pub scroll : Vga → Vga
scroll s =
    let kept = cursor_max - s.width + 1 in
    let b = fill_cells s.width kept (blank s) (move_down kept 0 s.width s.buffer) in
    let s' = record s { buffer = b } in
    if leb s.width s.cursor_pos then set_pos (s.cursor_pos - s.width) s' else s'

-- Whether there is a character on the last line
unfoldable pub last_line_occupied : Vga → Bool
last_line_occupied s =
    is_some (first_from (λ i. not (cell_char (s.buffer i) == 0)) s.width (cursor_max - s.width + 1))

-- `new_line(pos)` for a position in the first line, when there is no room below
unfoldable pub drop_start : (p chars : ℕ) → Vga → Vga
drop_start p chars s = record s {
  buffer = fill_cells p chars (blank s) (move_down chars 0 p s.buffer);
}

-- The lines behind the text, moved one down
unfoldable pub lines_down : (p chars : ℕ) → Vga → Vga
lines_down p chars s =
    let start = ((p + chars) / s.width + 1) * s.width in
    let moved = move_up (cursor_max + 1 - (start + s.width)) (start + s.width) s.width s.buffer in
    record s { buffer = fill_cells s.width start (blank s) moved }

-- The text behind the new line, moved to the next one
unfoldable pub break_line : (p chars : ℕ) → Vga → Vga
break_line p chars s =
    let shift = s.width - p % s.width in
    let moved = move_up chars (p + shift) shift s.buffer in
    record s { buffer = fill_cells ((p / s.width + 1) * s.width - p) p (blank s) moved }

unfoldable pub open_line : (down : Bool) (p chars : ℕ) → Vga → Vga
open_line down p chars s = break_line p chars (if down then lines_down p chars s else s)

-- `new_line(pos)`
unfoldable pub new_line_at : (p : ℕ) → Vga → Vga
new_line_at p s =
    let chars = chars_from (cursor_max + 1 - p) p s.buffer in
    let down = not (ltb s.width (p % s.width + chars) && ltb chars s.width) in
    if ltb cursor_max p
    then s
    else if down && last_line_occupied s
    then (if leb s.width p
        then open_line down (p - s.width) chars (scroll s)
        else drop_start p chars s)
    else open_line down p chars s

-- `new_line()`
unfoldable pub new_line : Vga → Vga
new_line s = let s' = new_line_at s.cursor_pos s in set_pos_at (s'.cursor_pos / s'.width + 1) 0 s'

-- The cells behind the cursor make room in the insert mode of `putchar`.
unfoldable pub make_room : Vga → Vga
make_room s =
    let chars = chars_from (cursor_max + 1 - s.cursor_pos) s.cursor_pos s.buffer in
    let end_pos = s.cursor_pos + chars + 1 in
    let s' =
      if leb cursor_max end_pos
      then scroll s
      else if end_pos % s.width == 0
      then new_line_at end_pos s
      else s in
    record s' { buffer = move_up chars (s'.cursor_pos + 1) 1 s'.buffer }

-- The rest of `putchar` for a character that is printable
unfoldable pub print_cell : (v : ℕ) → Vga → Vga
print_cell v s =
    let s' = record s { buffer = put_cell s.cursor_pos v s.buffer } in
    advance 1 (if s.cursor_pos == cursor_max then scroll s' else s')

unfoldable pub in_mode : VgaWriteMode → Vga → Vga
in_mode insert s = make_room s
in_mode overwrite s = s

-- `putchar(cc)` and `write_char(c)`
unfoldable pub putchar : (v : ℕ) → Vga → Vga
putchar v s =
    if not (isprint (pos (cell_char v)) == 0)
    then print_cell v (in_mode s.write_mode s)
    else if cell_char v == 0x0a
    then new_line s
    else s

unfoldable pub write_char : (c : ℕ) → Vga → Vga
write_char c s = putchar (cell_value c s.foreground s.background) s

-- `putchar_at(cc, row, column)`
unfoldable pub putchar_at : (v row column : ℕ) → Vga → Vga × Bool
putchar_at v row column s =
    let p = row * s.width + column in
    if leb s.width column || leb s.height row
    then (s, false)
    else if not (isprint (pos (cell_char v)) == 0)
    then (record s { buffer = put_cell p v s.buffer }, true)
    else if cell_char v == 0x0a
    then (new_line_at p s, true)
    else (s, true)

-- `write_char` for each character of a text
unfoldable pub write_text : List ℕ → Vga → Vga
write_text [] s = s
write_text (c ∷ cs) s = write_text cs (write_char c s)
