-- ===== src/Keyboard.antt =====
-- kernel/cpp/Keyboard.cpp and kernel/include/Keyboard.h: the driver of a PS/2 keyboard. The calls that it
-- makes of its device are gathered in `out` and the bytes that it sends to the controller in
-- `sent`. What the controller answers is given: the bytes of a scan code by `bytes`, the answers to
-- commands by `responses`, each the function from the number of the read.
pub mod KeyCode
pub mod Tables
pub mod Scan
pub mod Commands
pub mod Read
pub mod Codes
pub mod Keys
pub mod Letters
use stable_genius.Common.{ℕ, Bool, true, false, not, ◌&&◌, ◌||◌, List, ◌==◌, if◌then◌else◌}
use stable_genius.Common.Int.{pos}
use stable_genius.Ctype.{isalpha}
use Tables.{element, ascii_unshift, ascii_shift}
use KeyCode

pub data KeyboardMode : Type 0 where
  keycode asciicode ascii : KeyboardMode

pub data KeyboardScan : Type 0 where
  sc1 sc2 sc3 : KeyboardScan

pub record KeyState : Type 0 where
  pub capslock : Bool
  pub numlock : Bool
  pub scrllock : Bool
  pub lshift : Bool
  pub rshift : Bool
  pub lctrl : Bool
  pub rctrl : Bool
  pub lgui : Bool
  pub rgui : Bool
  pub lalt : Bool
  pub ralt : Bool
  pub menu : Bool

-- `device->key(k, s)` and `device->add_char(c)`
pub data DeviceCall : Type 0 where
  device_key : ℕ → KeyState → DeviceCall
  device_char : ℕ → DeviceCall

pub record Keyboard : Type 0 where
  pub has_device : Bool
  pub pressed : ℕ → Bool
  pub mode : KeyboardMode
  pub capslock : Bool
  pub numlock : Bool
  pub scrllock : Bool
  pub interrupts : Bool
  pub sent : List ℕ
  pub out : List DeviceCall

-- `pressed[k] = v`
unfoldable pub set_pressed : (k : ℕ) (v : Bool) → (ℕ → Bool) → ℕ → Bool
set_pressed k v pressed x = if x == k then v else pressed x

unfoldable pub numlock_map : ℕ → ℕ
numlock_map k =
    if k == KeyCode.k0
    then KeyCode.ins
    else if k == KeyCode.kdot
    then KeyCode.del
    else if k == KeyCode.k1
    then KeyCode.end
    else if k == KeyCode.k2
    then KeyCode.darrow
    else if k == KeyCode.k3
    then KeyCode.pdown
    else if k == KeyCode.k4
    then KeyCode.larrow
    else if k == KeyCode.k6
    then KeyCode.rarrow
    else if k == KeyCode.k7
    then KeyCode.home
    else if k == KeyCode.k8
    then KeyCode.uarrow
    else if k == KeyCode.k9
    then KeyCode.pup
    else k

-- Whether a key is down that lets no key stand for a character
unfoldable pub modified : (ℕ → Bool) → Bool
modified pressed =
    pressed KeyCode.lctrl
    || (pressed KeyCode.rctrl
        || (pressed KeyCode.lalt
            || (pressed KeyCode.ralt
                || (pressed KeyCode.lgui || (pressed KeyCode.rgui || pressed KeyCode.menu)))))

-- The keys of the number pad whose two characters `numlock` swaps
unfoldable pub on_keypad : ℕ → Bool
on_keypad k =
    k == KeyCode.k0
    || (k == KeyCode.kdot
        || (k == KeyCode.k1
            || (k == KeyCode.k2
                || (k == KeyCode.k3
                    || (k == KeyCode.k4
                        || (k == KeyCode.k5
                            || (k == KeyCode.k6
                                || (k == KeyCode.k7 || (k == KeyCode.k8 || k == KeyCode.k9)))))))))

-- `ascii_shift[k]` or `ascii_unshift[k]`
unfoldable pub character : (shift : Bool) (k : ℕ) → ℕ
character shift k = if shift then element ascii_shift k else element ascii_unshift k

unfoldable pub get_ascii : ℕ → Keyboard → ℕ
get_ascii k s =
    let shift = s.pressed KeyCode.lshift || s.pressed KeyCode.rshift in
    let test = if s.numlock && on_keypad k then character (not shift) k else character shift k in
    if modified s.pressed
    then 0
    else if not (isalpha (pos test) == 0) && s.capslock
    then character (not shift) k
    else test

unfoldable pub get_state : Keyboard → KeyState
get_state s = record {
  capslock = s.capslock;
  numlock = s.numlock;
  scrllock = s.scrllock;
  lshift = s.pressed KeyCode.lshift;
  rshift = s.pressed KeyCode.rshift;
  lctrl = s.pressed KeyCode.lctrl;
  rctrl = s.pressed KeyCode.rctrl;
  lgui = s.pressed KeyCode.lgui;
  rgui = s.pressed KeyCode.rgui;
  lalt = s.pressed KeyCode.lalt;
  ralt = s.pressed KeyCode.ralt;
  menu = s.pressed KeyCode.menu;
}
