-- ===== src/Keyboard/Scan.antt =====
-- The scan codes of kernel/cpp/Keyboard.cpp: `read_code_sc2`, which reads one byte and says whether the code
-- is complete, the loop of `read_key` that calls it, and `decode_sc2` with its checks.
use stable_genius.Common.{
  ℕ, zero, suc, ◌+◌, Bool, true, false, not, ◌&&◌, ◌||◌, Option, none, some, List, [], ◌∷◌, leb,
  ◌==◌, if◌then◌else◌, first_from,
}
use stable_genius.Keyboard.{set_pressed}
use stable_genius.Keyboard.Tables.{element, sc2_basic, sc2_extended}
use stable_genius.Keyboard.KeyCode

-- `read_code_sc2(codes, reading)` after `++reading`
unfoldable pub is_complete : (reading : ℕ) (codes : ℕ → ℕ) → Bool
is_complete reading c =
    if reading == 1
    then not (c 0 == 0xe0 || (c 0 == 0xf0 || c 0 == 0xe1))
    else if reading == 2
    then not (
        (c 0 == 0xe0 && c 1 == 0xf0)
        || ((c 0 == 0xe0 && c 1 == 0x12) || (c 0 == 0xe1 && c 1 == 0x14)))
    else if reading == 3
    then not (
        (c 0 == 0xe0 && (c 1 == 0x12 && c 2 == 0xe0))
        || ((c 0 == 0xe0 && (c 1 == 0xf0 && c 2 == 0x7c))
            || (c 0 == 0xe1 && (c 1 == 0x14 && c 2 == 0x77))))
    else if reading == 4
    then not (c 3 == 0xe0 || c 3 == 0xe1)
    else if reading == 5
    then not (c 4 == 0xf0)
    else if reading == 6
    then not (c 5 == 0x14)
    else if reading == 7
    then not (c 6 == 0xf0)
    else true

-- `while (!read_code_sc2(codes, reading)) ;` on fuel: how many bytes are read
unfoldable pub read_codes : (fuel reading : ℕ) (codes : ℕ → ℕ) → Option ℕ
read_codes zero reading codes = none
read_codes (suc n) reading codes =
    let rest = read_codes n (reading + 1) codes in
    if is_complete (reading + 1) codes then some (reading + 1) else rest

abbrev pub pause_seq : List ℕ
pause_seq = 0xe1 ∷ 0x14 ∷ 0x77 ∷ 0xe1 ∷ 0xf0 ∷ 0x14 ∷ 0xf0 ∷ 0x77 ∷ []

abbrev pub prtscrn_press_seq : List ℕ
prtscrn_press_seq = 0xe0 ∷ 0x12 ∷ 0xe0 ∷ 0x7c ∷ []

abbrev pub prtscrn_rel_seq : List ℕ
prtscrn_rel_seq = 0xe0 ∷ 0xf0 ∷ 0x7c ∷ 0xe0 ∷ 0xf0 ∷ 0x12 ∷ []

-- What a code leaves of the pressed keys, and the key code
abbrev pub Decoded : Type 0
Decoded = (ℕ → Bool) × ℕ

-- `check_pause`, `check_prtscrn_press` and `check_prtscrn_rel`: each compares the code with a sequence
unfoldable pub check_seq :
    (seq : List ℕ) (rounds : ℕ) (k : ℕ) (v : Bool) (codes : ℕ → ℕ) → (ℕ → Bool) → Decoded
check_seq seq rounds k v codes pressed =
    elim (first_from (λ i. not (codes i == element seq i)) rounds 0) [
      | some i ↦ (pressed, KeyCode.inv)
      | none ↦ (set_pressed k v pressed, k)
    ]

unfoldable pub check_pause : (codes : ℕ → ℕ) → (ℕ → Bool) → Decoded
check_pause codes pressed = check_seq pause_seq 8 KeyCode.pause true codes pressed

unfoldable pub check_prtscrn_press : (codes : ℕ → ℕ) → (ℕ → Bool) → Decoded
check_prtscrn_press codes pressed = check_seq prtscrn_press_seq 4 KeyCode.prtscrn true codes pressed

unfoldable pub check_prtscrn_rel : (codes : ℕ → ℕ) → (ℕ → Bool) → Decoded
check_prtscrn_rel codes pressed = check_seq prtscrn_rel_seq 6 KeyCode.prtscrn false codes pressed

-- `pressed[k] = v`, with the key code returned
abbrev pub decoded : (k : ℕ) (v : Bool) → (ℕ → Bool) → Decoded
decoded k v pressed = (set_pressed k v pressed, k)

unfoldable pub decode_one : (codes : ℕ → ℕ) → (ℕ → Bool) → Decoded
decode_one c pressed =
    if leb (c 0) 0x83
    then decoded (element sc2_basic (c 0)) true pressed
    else (pressed, KeyCode.inv)

unfoldable pub decode_two : (codes : ℕ → ℕ) → (ℕ → Bool) → Decoded
decode_two c pressed =
    if c 0 == 0xe0 && leb (c 1) 0x7d
    then decoded (element sc2_extended (c 1)) true pressed
    else if c 0 == 0xf0 && leb (c 1) 0x83
    then decoded (element sc2_basic (c 1)) false pressed
    else (pressed, KeyCode.inv)

unfoldable pub decode_three : (codes : ℕ → ℕ) → (ℕ → Bool) → Decoded
decode_three c pressed =
    if c 0 == 0xe0 && (c 1 == 0xf0 && leb (c 2) 0x7d)
    then decoded (element sc2_extended (c 2)) false pressed
    else (pressed, KeyCode.inv)

unfoldable pub decode_sc2 : (reading : ℕ) (codes : ℕ → ℕ) → (ℕ → Bool) → Decoded
decode_sc2 reading c pressed =
    if reading == 1
    then decode_one c pressed
    else if reading == 2
    then decode_two c pressed
    else if reading == 3
    then decode_three c pressed
    else if reading == 4
    then check_prtscrn_press c pressed
    else if reading == 6
    then check_prtscrn_rel c pressed
    else if reading == 8
    then check_pause c pressed
    else (pressed, KeyCode.inv)
