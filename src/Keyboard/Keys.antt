-- ===== src/Keyboard/Keys.antt =====
-- `read_key` of kernel/cpp/Keyboard.cpp over any bytes, and over those of a key that is pressed and released.
use stable_genius.Common.{
  ℕ, ◌≡◌, ◌≢◌, ◌≤◌, ◌<◌, refl, Bool, true, false, not, ◌&&◌, some, ◌==◌, if◌then◌else◌, inl, inr,
  arith, Bool-cases,
}
use stable_genius.Keyboard.{Keyboard, sc2, set_pressed}
use stable_genius.Keyboard.Scan.{read_codes, decode_sc2}
use stable_genius.Keyboard.Codes.{
  read_codes-within, key_of, press_bytes, release_bytes, codes_end, press_basic, release_basic,
  press_extended, release_extended,
}
use stable_genius.Keyboard.Read.{with_leds, adjust_locks, output_key, finish_key, read_key}
use stable_genius.Keyboard.KeyCode

read_key-finish :
    (reading : ℕ) (bytes responses : ℕ → ℕ) (s : Keyboard)
    → read_codes 8 0 bytes ≡ some reading
    → read_key sc2 bytes responses s
      ≡ some (finish_key reading bytes responses (record s { interrupts = false }))
unfolding read_key
read_key-finish reading bytes responses s e = rw (e, read_key) refl

-- Whatever bytes the keyboard sends, `read_key` for scan code set 2 reads at most the eight that its buffer
-- holds, ends, and leaves the interrupts enabled.
pub read_key-ends :
    (bytes responses : ℕ → ℕ) (s : Keyboard)
    → (reading : ℕ) × (s' : Keyboard) × (read_codes 8 0 bytes ≡ some reading)
      × (reading ≤ 8)
      × (read_key sc2 bytes responses s ≡ some s')
      × (s'.interrupts ≡ true)
unfolding finish_key
read_key-ends bytes responses s =
    let (r, hit, _, below) = read_codes-within 7 0 bytes (omega arith) in
    (
      r,
      finish_key r bytes responses (record s { interrupts = false }),
      hit,
      below,
      read_key-finish r bytes responses s hit,
      refl,
    )

-- Locks and output leave the pressed keys alone.
adjust_locks-pressed :
    (responses : ℕ → ℕ) (k : ℕ) (s : Keyboard) → (adjust_locks responses k s).pressed ≡ s.pressed
unfolding adjust_locks with_leds
adjust_locks-pressed responses k s = elim (Bool-cases (k == KeyCode.capslock)) [
  | inl e ↦ rw e refl
  | inr e ↦ elim (Bool-cases (k == KeyCode.numlock)) [
    | inl f ↦ rw (e, f) refl
    | inr f ↦ elim (Bool-cases (k == KeyCode.scrllock)) [
      | inl g ↦ rw (e, f, g) refl
      | inr g ↦ rw (e, f, g) refl
    ]
  ]
]

output_key-pressed :
    (responses : ℕ → ℕ) (k : ℕ) (s : Keyboard) → (output_key responses k s).pressed ≡ s.pressed
unfolding output_key
output_key-pressed responses k s =
    elim (Bool-cases (not (k == KeyCode.inv) && (s.pressed k && s.has_device))) [
      | inl e ↦ rw e (adjust_locks-pressed responses k s)
      | inr e ↦ rw e refl
    ]

-- A key that is not down after its code gives no output and turns no lock.
output_key-released :
    (responses : ℕ → ℕ) (k : ℕ) (s : Keyboard) → s.pressed k ≡ false → output_key responses k s ≡ s
unfolding output_key
output_key-released responses k s e =
    let idle : (not (k == KeyCode.inv) && (s.pressed k && s.has_device)) ≡ false = ground arith in
    rw idle refl

set_pressed_same : (k : ℕ) (v : Bool) (pressed : ℕ → Bool) → set_pressed k v pressed k ≡ v
unfolding set_pressed
set_pressed_same k v pressed = ground arith

press_read :
    (extended : Bool) (c : ℕ) (pressed : ℕ → Bool)
    → c < codes_end extended
    → key_of extended c ≢ KeyCode.inv
    → (n : ℕ) × (read_codes 8 0 (press_bytes extended c) ≡ some n)
      × (decode_sc2 n (press_bytes extended c) pressed
          ≡ (set_pressed (key_of extended c) true pressed, key_of extended c))
unfolding codes_end key_of press_bytes
press_read true c pressed h ne = let (reads, e) = press_extended c pressed h ne in (2, reads, e)
press_read false c pressed h ne = let (reads, e) = press_basic c pressed h in (1, reads, e)

release_read :
    (extended : Bool) (c : ℕ) (pressed : ℕ → Bool)
    → c < codes_end extended
    → key_of extended c ≢ KeyCode.inv
    → (n : ℕ) × (read_codes 8 0 (release_bytes extended c) ≡ some n)
      × (decode_sc2 n (release_bytes extended c) pressed
          ≡ (set_pressed (key_of extended c) false pressed, key_of extended c))
unfolding codes_end key_of
release_read true c pressed h ne = let (reads, e) = release_extended c pressed h ne in (3, reads, e)
release_read false c pressed h ne = let (reads, e) = release_basic c pressed h in (2, reads, e)

finish_key-decoded :
    (n : ℕ) (bytes responses : ℕ → ℕ) (s : Keyboard) (pressed : ℕ → Bool) (k : ℕ)
    → decode_sc2 n bytes s.pressed ≡ (pressed, k)
    → finish_key n bytes responses s
      ≡ record (output_key responses k (record s { pressed = pressed })) { interrupts = true }
unfolding finish_key
finish_key-decoded n bytes responses s pressed k e = rw e refl

-- The states behind the press and the release of key `k`
abbrev pub down : (responses : ℕ → ℕ) (k : ℕ) → Keyboard → Keyboard
down responses k s =
    record (output_key responses k
      (record s { interrupts = false; pressed = set_pressed k true s.pressed })) {
        interrupts = true;
      }

abbrev pub up : (k : ℕ) → Keyboard → Keyboard
up k s = record s { interrupts = true; pressed = set_pressed k false s.pressed }

read_key-press :
    (extended : Bool) (c : ℕ) (responses : ℕ → ℕ) (s : Keyboard)
    → c < codes_end extended
    → key_of extended c ≢ KeyCode.inv
    → read_key sc2 (press_bytes extended c) responses s
      ≡ some (down responses (key_of extended c) s)
read_key-press extended c responses s h ne =
    let (n, hit, e) = press_read extended c s.pressed h ne in
    let k = key_of extended c in
    rw
      (
        read_key-finish n (press_bytes extended c) responses s hit,
        finish_key-decoded n (press_bytes extended c) responses (record s { interrupts = false })
            (set_pressed k true s.pressed) k e,
      )
      refl

read_key-release :
    (extended : Bool) (c : ℕ) (responses : ℕ → ℕ) (s : Keyboard)
    → c < codes_end extended
    → key_of extended c ≢ KeyCode.inv
    → read_key sc2 (release_bytes extended c) responses s ≡ some (up (key_of extended c) s)
read_key-release extended c responses s h ne =
    let (n, hit, e) = release_read extended c s.pressed h ne in
    let k = key_of extended c in
    rw
      (
        read_key-finish n (release_bytes extended c) responses s hit,
        finish_key-decoded n (release_bytes extended c) responses (record s { interrupts = false })
            (set_pressed k false s.pressed) k e,
        output_key-released responses k
            (record s { interrupts = false; pressed = set_pressed k false s.pressed })
            (set_pressed_same k false s.pressed),
      )
      refl

-- The bytes of a key of scan code set 2, plain or behind 0xe0, on being pressed and then released: both reads
-- end. After the first the key is down and every other key as before; after the second the key is up
-- and every other key as at the start, and the device and the locks have seen no more than after
-- the first.
pub read_key-press_release :
    (extended : Bool) (c x : ℕ) (responses : ℕ → ℕ) (s : Keyboard)
    → c < codes_end extended
    → key_of extended c ≢ KeyCode.inv
    → let k = key_of extended c in
      (s1 : Keyboard) × (s2 : Keyboard) × (read_key sc2 (press_bytes extended c) responses s
        ≡ some s1)
      × (read_key sc2 (release_bytes extended c) responses s1 ≡ some s2)
      × (s1.pressed x ≡ (if x == k then true else s.pressed x))
      × (s2.pressed x ≡ (if x == k then false else s.pressed x))
      × (s2 ≡ record s1 { pressed = s2.pressed })
unfolding set_pressed
read_key-press_release extended c x responses s h ne =
    let k = key_of extended c in
    let s1 = down responses k s in
    let pressed_k =
      output_key-pressed responses k
        (record s { interrupts = false; pressed = set_pressed k true s.pressed }) in
    (
      s1,
      up k s1,
      read_key-press extended c responses s h ne,
      read_key-release extended c responses s1 h ne,
      rw pressed_k refl,
      rw pressed_k (ground arith),
      refl,
    )
