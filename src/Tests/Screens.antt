-- ===== src/Tests/Screens.antt =====
-- The display at concrete states.
use stable_genius.Common.{ℕ, ◌≡◌, refl, true, [], ◌∷◌, arith}
use stable_genius.Ctype.Classes.{print, class_of, in_class, class_of-in_class}
use stable_genius.Vga.{Vga, overwrite, blank, cell_value, new_line, write_text}
use stable_genius.Vga.Written
use stable_genius.Vga.Overrun

-- An empty screen with the cursor at a position
abbrev screen : ℕ → Vga
screen p = record {
  buffer = λ i. 0;
  width = 80;
  height = 25;
  foreground = 7;
  background = 0;
  write_mode = overwrite;
  cursor_pos = p;
}

ok_printable : Written.all_printable (b'o' ∷ b'k' ∷ []) ≡ true
unfolding class_of in_class
ok_printable = ground (arith, class_of-in_class print b'o', class_of-in_class print b'k')

write_text-written_example :
    ((write_text (b'o' ∷ b'k' ∷ []) (screen 85)).cursor_pos ≡ 87)
    × ((write_text (b'o' ∷ b'k' ∷ []) (screen 85)).buffer 86 ≡ cell_value b'k' 7 0)
write_text-written_example =
    Written.write_text-written (b'o' ∷ b'k' ∷ []) 86 (screen 85) refl (omega arith) ok_printable

new_line-overruns_example :
    ((new_line (screen 1930)).buffer 2000 ≡ blank (screen 1930))
    × ((new_line (screen 1930)).cursor_pos ≡ 1930)
new_line-overruns_example =
    Overrun.new_line-overruns 2000 (screen 1930) refl (omega arith) (omega arith) (λ i a b. refl)
      (omega arith) (omega arith)
