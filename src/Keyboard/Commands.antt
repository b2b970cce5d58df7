-- ===== src/Keyboard/Commands.antt =====
-- The commands of kernel/cpp/Keyboard.cpp to the keyboard: the bytes that each sends, by the responses, and
-- what it returns. `flush` and the messages of the log are left out.
use stable_genius.Common.{ℕ, ◌+◌, Bool, false, List, [], ◌∷◌, ◌==◌, if◌then◌else◌}
use stable_genius.Keyboard.{Keyboard}

-- `KeyboardCommand`
abbrev pub set_leds_command : ℕ
set_leds_command = 0xed

abbrev pub self_test_command : ℕ
self_test_command = 0xee

abbrev pub set_sc_command : ℕ
set_sc_command = 0xf0

abbrev pub ack : ℕ
ack = 0xfa

-- The byte of `set_leds`; each bit is set apart from the others.
unfoldable pub leds : Keyboard → ℕ
leds s =
    (if s.scrllock then 0x01 else 0)
    + (if s.numlock then 0x02 else 0)
    + (if s.capslock then 0x04 else 0)

-- The bytes that a command with one byte of data sends: the data only after an acknowledgement
unfoldable pub command_bytes : (command data_byte response : ℕ) → List ℕ
command_bytes command data_byte response =
    if response == ack then command ∷ data_byte ∷ [] else command ∷ []

unfoldable pub set_leds : (responses : ℕ → ℕ) → Keyboard → List ℕ
set_leds responses s = command_bytes set_leds_command (leds s) (responses 0)

unfoldable pub set_sc : (sc : ℕ) (responses : ℕ → ℕ) → List ℕ
set_sc sc responses = command_bytes set_sc_command sc (responses 0)

-- `check_sc()` and `self_test()`, with the bytes sent
unfoldable pub check_sc : (scan : ℕ) (responses : ℕ → ℕ) → List ℕ × Bool
check_sc scan responses =
    let answer = if responses 1 == ack then responses 2 else responses 1 in
    if responses 0 == ack
    then (set_sc_command ∷ 0x00 ∷ [], answer == scan)
    else (set_sc_command ∷ [], false)

unfoldable pub self_test : (responses : ℕ → ℕ) → List ℕ × Bool
self_test responses = (self_test_command ∷ [], responses 0 == self_test_command)
