-- ===== src/Tests/Keys.antt =====
-- The keyboard at concrete bytes.
use stable_genius.Common.{ℕ, ◌≡◌, ◌≤◌, refl, true, false, some, [], arith, ◌==◌, if◌then◌else◌, ◌<◌}
use stable_genius.Common.Int.{pos}
use stable_genius.Ctype.{toupper}
use stable_genius.Keyboard.{Keyboard, ascii, sc2, modified, character, get_ascii}
use stable_genius.Keyboard.Tables.{element}
use stable_genius.Keyboard.Scan.{read_codes, pause_seq}
use stable_genius.Keyboard.Read.{read_key}
use stable_genius.Keyboard.Codes.{key_of, press_bytes, release_bytes, codes_end}
use stable_genius.Keyboard.Keys
use stable_genius.Keyboard.Letters

-- No key is down, and the caps lock is on.
abbrev capital_lock : Keyboard
capital_lock = record {
  has_device = true;
  pressed = λ k. false;
  mode = ascii;
  capslock = true;
  numlock = false;
  scrllock = false;
  interrupts = true;
  sent = [];
  out = [];
}

abbrev acks : ℕ → ℕ
acks i = 0xfa

read_key-ends_example :
    (reading : ℕ) × (s' : Keyboard) × (read_codes 8 0 (element pause_seq) ≡ some reading)
    × (reading ≤ 8)
    × (read_key sc2 (element pause_seq) acks capital_lock ≡ some s')
    × (s'.interrupts ≡ true)
read_key-ends_example = Keys.read_key-ends (element pause_seq) acks capital_lock

key_a : key_of false 0x1c ≡ 0x41
unfolding key_of element
key_a = refl

below_end : 0x1c < codes_end false
unfolding codes_end
below_end = omega arith

read_key-press_release_example :
    let k = key_of false 0x1c in
    (s1 : Keyboard) × (s2 : Keyboard) × (read_key sc2 (press_bytes false 0x1c) acks capital_lock
      ≡ some s1)
    × (read_key sc2 (release_bytes false 0x1c) acks s1 ≡ some s2)
    × (s1.pressed 0x42 ≡ (if 0x42 == k then true else false))
    × (s2.pressed 0x42 ≡ (if 0x42 == k then false else false))
    × (s2 ≡ record s1 { pressed = s2.pressed })
read_key-press_release_example =
    Keys.read_key-press_release false 0x1c 0x42 acks capital_lock below_end (omega (arith, key_a))

not_modified : modified (λ k. false) ≡ false
unfolding modified
not_modified = refl

types_a : Letters.types_letter 0x41 ≡ true
unfolding character element
types_a = refl

get_ascii-letter_example : pos (get_ascii 0x41 capital_lock) ≡ toupper (pos (character false 0x41))
get_ascii-letter_example = Letters.get_ascii-letter 0x41 capital_lock types_a not_modified
