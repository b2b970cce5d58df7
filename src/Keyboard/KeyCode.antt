-- ===== src/Keyboard/KeyCode.antt =====
-- The key codes of kernel/include/Keyboard.h that the code of kernel/cpp/Keyboard.cpp names.
use stable_genius.Common.{ℕ}

abbrev pub lctrl : ℕ
lctrl = 0x00

abbrev pub lgui : ℕ
lgui = 0x01

abbrev pub lalt : ℕ
lalt = 0x02

abbrev pub ralt : ℕ
ralt = 0x04

abbrev pub rgui : ℕ
rgui = 0x05

abbrev pub menu : ℕ
menu = 0x06

abbrev pub rctrl : ℕ
rctrl = 0x07

abbrev pub lshift : ℕ
lshift = 0x20

abbrev pub rshift : ℕ
rshift = 0x2c

abbrev pub capslock : ℕ
capslock = 0x40

abbrev pub numlock : ℕ
numlock = 0x91

abbrev pub scrllock : ℕ
scrllock = 0xaf

abbrev pub k0 : ℕ
k0 = 0x11

abbrev pub kdot : ℕ
kdot = 0x13

abbrev pub k1 : ℕ
k1 = 0x31

abbrev pub k2 : ℕ
k2 = 0x32

abbrev pub k3 : ℕ
k3 = 0x33

abbrev pub k4 : ℕ
k4 = 0x51

abbrev pub k5 : ℕ
k5 = 0x52

abbrev pub k6 : ℕ
k6 = 0x53

abbrev pub k7 : ℕ
k7 = 0x71

abbrev pub k8 : ℕ
k8 = 0x72

abbrev pub k9 : ℕ
k9 = 0x73

abbrev pub ins : ℕ
ins = 0x8e

abbrev pub del : ℕ
del = 0x6e

abbrev pub end : ℕ
end = 0x6f

abbrev pub darrow : ℕ
darrow = 0x0f

abbrev pub pdown : ℕ
pdown = 0x70

abbrev pub larrow : ℕ
larrow = 0x0e

abbrev pub rarrow : ℕ
rarrow = 0x10

abbrev pub home : ℕ
home = 0x8f

abbrev pub uarrow : ℕ
uarrow = 0x2f

abbrev pub pup : ℕ
pup = 0x90

abbrev pub prtscrn : ℕ
prtscrn = 0xae

abbrev pub pause : ℕ
pause = 0xb0

abbrev pub inv : ℕ
inv = 0xff
