-- ===== src/Keyboard/Tables.antt =====
-- The tables of kernel/cpp/Keyboard.cpp. A key code is its number: 0x20 for a row of the keyboard, and the
-- column. A byte b'x' is that character. The tables of characters end at their last entry that is
-- not 0, and a look-up behind the end of a list gives 0, as the rest of these tables has it.
use stable_genius.Common.{ℕ, zero, suc, List, [], ◌∷◌}

-- An element of an array
unfoldable pub element : List ℕ → ℕ → ℕ
element [] n = 0
element (x ∷ xs) zero = x
element (x ∷ xs) (suc n) = element xs n

abbrev pub ascii_unshift : List ℕ
ascii_unshift =
    0 ∷ 0 ∷ 0 ∷ 32 ∷ 0 ∷ 0 ∷ 0 ∷ 0 ∷ 0 ∷ 0 ∷ 0 ∷ 0 ∷ 0 ∷ 0 ∷ 0 ∷ 0 ∷ 0 ∷ 0 ∷ 0 ∷ 8 ∷ 10 ∷ 0 ∷ 0 ∷ 0
    ∷ 0 ∷ 0 ∷ 0 ∷ 0 ∷ 0 ∷ 0 ∷ 0 ∷ 0 ∷ 0 ∷ 92 ∷ b'z' ∷ b'x' ∷ b'c' ∷ b'v' ∷ b'b' ∷ b'n' ∷ b'm' ∷ 44
    ∷ 46 ∷ 47 ∷ 0 ∷ 0 ∷ 0 ∷ 0 ∷ 0 ∷ 0 ∷ 0 ∷ 0 ∷ 0 ∷ 0 ∷ 0 ∷ 0 ∷ 0 ∷ 0 ∷ 0 ∷ 0 ∷ 0 ∷ 0 ∷ 0 ∷ 0 ∷ 0
    ∷ b'a' ∷ b's' ∷ b'd' ∷ b'f' ∷ b'g' ∷ b'h' ∷ b'j' ∷ b'k' ∷ b'l' ∷ 59 ∷ 39 ∷ 35 ∷ 10 ∷ 0 ∷ 0 ∷ 0
    ∷ 0 ∷ 0 ∷ 0 ∷ 43 ∷ 0 ∷ 0 ∷ 0 ∷ 0 ∷ 0 ∷ 0 ∷ 0 ∷ 0 ∷ 0 ∷ 0 ∷ 0 ∷ 9 ∷ b'q' ∷ b'w' ∷ b'e' ∷ b'r'
    ∷ b't' ∷ b'y' ∷ b'u' ∷ b'i' ∷ b'o' ∷ b'p' ∷ 91 ∷ 93 ∷ 0 ∷ 8 ∷ 0 ∷ 0 ∷ 0 ∷ 0 ∷ 0 ∷ 0 ∷ 0 ∷ 0 ∷ 0
    ∷ 0 ∷ 0 ∷ 0 ∷ 0 ∷ 0 ∷ 0 ∷ 0 ∷ 0 ∷ 96 ∷ b'1' ∷ b'2' ∷ b'3' ∷ b'4' ∷ b'5' ∷ b'6' ∷ b'7' ∷ b'8'
    ∷ b'9' ∷ b'0' ∷ 45 ∷ 61 ∷ 8 ∷ 0 ∷ 0 ∷ 0 ∷ 0 ∷ 47 ∷ 42 ∷ 45 ∷ 0 ∷ 0 ∷ 0 ∷ 0 ∷ 0 ∷ 0 ∷ 0 ∷ 0 ∷ 0
    ∷ 0 ∷ 0 ∷ 27 ∷ []

abbrev pub ascii_shift : List ℕ
ascii_shift =
    0 ∷ 0 ∷ 0 ∷ 0 ∷ 0 ∷ 0 ∷ 0 ∷ 0 ∷ 0 ∷ 0 ∷ 0 ∷ 0 ∷ 0 ∷ 0 ∷ 0 ∷ 0 ∷ 0 ∷ b'0' ∷ 0 ∷ 46 ∷ 10 ∷ 0 ∷ 0
    ∷ 0 ∷ 0 ∷ 0 ∷ 0 ∷ 0 ∷ 0 ∷ 0 ∷ 0 ∷ 0 ∷ 0 ∷ 124 ∷ b'Z' ∷ b'X' ∷ b'C' ∷ b'V' ∷ b'B' ∷ b'N' ∷ b'M'
    ∷ 60 ∷ 62 ∷ 63 ∷ 0 ∷ 0 ∷ 0 ∷ 0 ∷ 0 ∷ b'1' ∷ b'2' ∷ b'3' ∷ 0 ∷ 0 ∷ 0 ∷ 0 ∷ 0 ∷ 0 ∷ 0 ∷ 0 ∷ 0 ∷ 0
    ∷ 0 ∷ 0 ∷ 0 ∷ b'A' ∷ b'S' ∷ b'D' ∷ b'F' ∷ b'G' ∷ b'H' ∷ b'J' ∷ b'K' ∷ b'L' ∷ 58 ∷ 64 ∷ 126 ∷ 10
    ∷ 0 ∷ 0 ∷ 0 ∷ b'4' ∷ b'5' ∷ b'6' ∷ 43 ∷ 0 ∷ 0 ∷ 0 ∷ 0 ∷ 0 ∷ 0 ∷ 0 ∷ 0 ∷ 0 ∷ 0 ∷ 0 ∷ 9 ∷ b'Q'
    ∷ b'W' ∷ b'E' ∷ b'R' ∷ b'T' ∷ b'Y' ∷ b'U' ∷ b'I' ∷ b'O' ∷ b'P' ∷ 123 ∷ 125 ∷ 0 ∷ 8 ∷ 0 ∷ 0
    ∷ b'7' ∷ b'8' ∷ b'9' ∷ 0 ∷ 0 ∷ 0 ∷ 0 ∷ 0 ∷ 0 ∷ 0 ∷ 0 ∷ 0 ∷ 0 ∷ 0 ∷ 0 ∷ 0 ∷ 33 ∷ 34 ∷ 0 ∷ 36 ∷ 37
    ∷ 94 ∷ 38 ∷ 42 ∷ 40 ∷ 41 ∷ 95 ∷ 43 ∷ 8 ∷ 0 ∷ 0 ∷ 0 ∷ 0 ∷ 47 ∷ 42 ∷ 45 ∷ 0 ∷ 0 ∷ 0 ∷ 0 ∷ 0 ∷ 0
    ∷ 0 ∷ 0 ∷ 0 ∷ 0 ∷ 0 ∷ 27 ∷ []

abbrev pub sc2_basic : List ℕ
sc2_basic =
    0xff ∷ 0xa9 ∷ 0xff ∷ 0xa5 ∷ 0xa3 ∷ 0xa1 ∷ 0xa2 ∷ 0xac ∷ 0xff ∷ 0xaa ∷ 0xa8 ∷ 0xa6 ∷ 0xa4 ∷ 0x60
    ∷ 0x80 ∷ 0xff ∷ 0xff ∷ 0x02 ∷ 0x20 ∷ 0xff ∷ 0x00 ∷ 0x61 ∷ 0x81 ∷ 0xff ∷ 0xff ∷ 0xff ∷ 0x22
    ∷ 0x42 ∷ 0x41 ∷ 0x62 ∷ 0x82 ∷ 0xff ∷ 0xff ∷ 0x24 ∷ 0x23 ∷ 0x43 ∷ 0x63 ∷ 0x84 ∷ 0x83 ∷ 0xff
    ∷ 0xff ∷ 0x03 ∷ 0x25 ∷ 0x44 ∷ 0x65 ∷ 0x64 ∷ 0x85 ∷ 0xff ∷ 0xff ∷ 0x27 ∷ 0x26 ∷ 0x46 ∷ 0x45
    ∷ 0x66 ∷ 0x86 ∷ 0xff ∷ 0xff ∷ 0xff ∷ 0x28 ∷ 0x47 ∷ 0x67 ∷ 0x87 ∷ 0x88 ∷ 0xff ∷ 0xff ∷ 0x29
    ∷ 0x48 ∷ 0x68 ∷ 0x69 ∷ 0x8a ∷ 0x89 ∷ 0xff ∷ 0xff ∷ 0x2a ∷ 0x2b ∷ 0x49 ∷ 0x4a ∷ 0x6a ∷ 0x8b
    ∷ 0xff ∷ 0xff ∷ 0xff ∷ 0x4b ∷ 0xff ∷ 0x6b ∷ 0x8c ∷ 0xff ∷ 0xff ∷ 0x40 ∷ 0x2c ∷ 0x4d ∷ 0x6c
    ∷ 0xff ∷ 0x4c ∷ 0xff ∷ 0xff ∷ 0xff ∷ 0x21 ∷ 0xff ∷ 0xff ∷ 0xff ∷ 0xff ∷ 0x8d ∷ 0xff ∷ 0xff
    ∷ 0x31 ∷ 0xff ∷ 0x51 ∷ 0x71 ∷ 0xff ∷ 0xff ∷ 0xff ∷ 0x11 ∷ 0x13 ∷ 0x32 ∷ 0x52 ∷ 0x53 ∷ 0x72
    ∷ 0xa0 ∷ 0x91 ∷ 0xab ∷ 0x54 ∷ 0x33 ∷ 0x94 ∷ 0x93 ∷ 0x73 ∷ 0xaf ∷ 0xff ∷ 0xff ∷ 0xff ∷ 0xff
    ∷ 0xa7 ∷ []

abbrev pub sc2_extended : List ℕ
sc2_extended =
    0xff ∷ 0xff ∷ 0xff ∷ 0xff ∷ 0xff ∷ 0xff ∷ 0xff ∷ 0xff ∷ 0xff ∷ 0xff ∷ 0xff ∷ 0xff ∷ 0xff ∷ 0xff
    ∷ 0xff ∷ 0xff ∷ 0xd0 ∷ 0x04 ∷ 0xff ∷ 0xff ∷ 0x07 ∷ 0xc5 ∷ 0xff ∷ 0xff ∷ 0xd1 ∷ 0xff ∷ 0xff
    ∷ 0xff ∷ 0xff ∷ 0xff ∷ 0xff ∷ 0x01 ∷ 0xcf ∷ 0xc0 ∷ 0xff ∷ 0xc2 ∷ 0xff ∷ 0xff ∷ 0xff ∷ 0x05
    ∷ 0xce ∷ 0xff ∷ 0xff ∷ 0xc8 ∷ 0xff ∷ 0xff ∷ 0xff ∷ 0x06 ∷ 0xcc ∷ 0xff ∷ 0xc1 ∷ 0xff ∷ 0xc3
    ∷ 0xff ∷ 0xff ∷ 0xd2 ∷ 0xcd ∷ 0xff ∷ 0xcb ∷ 0xc4 ∷ 0xff ∷ 0xff ∷ 0xff ∷ 0xd3 ∷ 0xc9 ∷ 0xff
    ∷ 0xff ∷ 0xff ∷ 0xff ∷ 0xff ∷ 0xff ∷ 0xff ∷ 0xca ∷ 0xff ∷ 0x92 ∷ 0xff ∷ 0xc6 ∷ 0xff ∷ 0xff
    ∷ 0xff ∷ 0xc7 ∷ 0xff ∷ 0xff ∷ 0xff ∷ 0xff ∷ 0xff ∷ 0xff ∷ 0xff ∷ 0xff ∷ 0xff ∷ 0x14 ∷ 0xff
    ∷ 0xff ∷ 0xff ∷ 0xd4 ∷ 0xff ∷ 0xff ∷ 0xff ∷ 0xff ∷ 0xff ∷ 0xff ∷ 0xff ∷ 0xff ∷ 0xff ∷ 0xff
    ∷ 0x6f ∷ 0xff ∷ 0x0e ∷ 0x8f ∷ 0xff ∷ 0xff ∷ 0xff ∷ 0x8e ∷ 0x6e ∷ 0x0f ∷ 0xff ∷ 0x10 ∷ 0x2f
    ∷ 0xff ∷ 0xff ∷ 0xff ∷ 0xff ∷ 0x70 ∷ 0xff ∷ 0xff ∷ 0x90 ∷ []
