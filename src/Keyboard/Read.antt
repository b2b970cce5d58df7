-- ===== src/Keyboard/Read.antt =====
-- `Ps2Keyboard::read_key` of kernel/cpp/Keyboard.cpp: one key is read, and given to the device.
use stable_genius.Common.{
  ℕ, true, false, not, ◌&&◌, Option, none, some, List, [], ◌∷◌, ◌++◌, ◌==◌, if◌then◌else◌,
}
use stable_genius.Keyboard.{
  Keyboard, KeyboardMode, keycode, asciicode, ascii, KeyboardScan, sc2, DeviceCall, device_key,
  device_char, get_ascii, get_state,
}
use stable_genius.Keyboard.Scan.{read_codes, decode_sc2}
use stable_genius.Keyboard.Commands.{set_leds}
use stable_genius.Keyboard.KeyCode

-- The locks, with the lamps set to match
unfoldable pub with_leds : (responses : ℕ → ℕ) → Keyboard → Keyboard
with_leds responses s = record s { sent = s.sent ++ set_leds responses s }

unfoldable pub adjust_locks : (responses : ℕ → ℕ) (current : ℕ) → Keyboard → Keyboard
adjust_locks responses k s =
    if k == KeyCode.capslock
    then with_leds responses (record s { capslock = not s.capslock })
    else if k == KeyCode.numlock
    then with_leds responses (record s { numlock = not s.numlock })
    else if k == KeyCode.scrllock
    then with_leds responses (record s { scrllock = not s.scrllock })
    else s

-- What the device gets for a key, by the mode
unfoldable pub outputs : KeyboardMode → (current : ℕ) → Keyboard → List DeviceCall
outputs keycode k s = device_key k (get_state s) ∷ []
outputs asciicode k s =
    if get_ascii k s == 0 then device_key k (get_state s) ∷ [] else device_char (get_ascii k s) ∷ []
outputs ascii k s = if get_ascii k s == 0 then [] else device_char (get_ascii k s) ∷ []

unfoldable pub output_key : (responses : ℕ → ℕ) (current : ℕ) → Keyboard → Keyboard
output_key responses k s =
    let s' = adjust_locks responses k s in
    if not (k == KeyCode.inv) && (s.pressed k && s.has_device)
    then record s' { out = s'.out ++ outputs s'.mode k s' }
    else s

-- The part behind the loop, for a code of scan code set 2 that has `reading` bytes
unfoldable pub finish_key : (reading : ℕ) (bytes responses : ℕ → ℕ) → Keyboard → Keyboard
finish_key reading bytes responses s =
    let (pressed, k) = decode_sc2 reading bytes s.pressed in
    record (output_key responses k (record s { pressed = pressed })) { interrupts = true }

-- `read_key()`, on fuel for the eight bytes of `codes`. The other scan code sets end it at once.
unfoldable pub read_key : KeyboardScan → (bytes responses : ℕ → ℕ) → Keyboard → Option Keyboard
read_key sc2 bytes responses s = elim (read_codes 8 0 bytes) [
  | none ↦ none
  | some reading ↦ some (finish_key reading bytes responses (record s { interrupts = false }))
]
read_key sc bytes responses s = some (record s { interrupts = false })
