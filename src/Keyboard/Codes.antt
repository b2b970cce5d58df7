-- ===== src/Keyboard/Codes.antt =====
-- How many bytes `read_key` of kernel/cpp/Keyboard.cpp reads, and what pressing and releasing a key do to the
-- pressed keys.
use stable_genius.Common.{
  ℕ, zero, suc, ◌+◌, ◌≡◌, ◌∙◌, ◌≢◌, ◌≤◌, ◌<◌, refl, Bool, true, false, some, ◌==◌, if◌then◌else◌,
  inl, inr, arith, Bool-cases,
}
use stable_genius.Keyboard.{set_pressed}
use stable_genius.Keyboard.Tables.{element, sc2_basic, sc2_extended}
use stable_genius.Keyboard.Scan.{
  is_complete, read_codes, decode_one, decode_two, decode_three, decode_sc2,
}
use stable_genius.Keyboard.KeyCode

eight_is_complete : (codes : ℕ → ℕ) → is_complete 8 codes ≡ true
unfolding is_complete
eight_is_complete codes = refl

read_codes-done :
    (n reading : ℕ) (codes : ℕ → ℕ)
    → is_complete (reading + 1) codes ≡ true
    → read_codes (suc n) reading codes ≡ some (reading + 1)
unfolding read_codes
read_codes-done n reading codes e = rw e refl

read_codes-more :
    (n reading : ℕ) (codes : ℕ → ℕ)
    → is_complete (reading + 1) codes ≡ false
    → read_codes (suc n) reading codes ≡ read_codes n (reading + 1) codes
unfolding read_codes
read_codes-more n reading codes e = rw e refl

-- The eighth byte ends the code at the latest.
pub read_codes-within :
    (n reading : ℕ) (codes : ℕ → ℕ)
    → reading + suc n ≡ 8
    → (r : ℕ) × (read_codes (suc n) reading codes ≡ some r) × (reading < r) × (r ≤ 8)
read_codes-within zero reading codes e =
    let last : reading + 1 ≡ 8 = omega arith in
    (
      reading + 1,
      read_codes-done 0 reading codes (rw last (eight_is_complete codes)),
      omega arith,
      omega arith,
    )
read_codes-within (suc n) reading codes e = elim (Bool-cases (is_complete (reading + 1) codes)) [
  | inl done ↦ (reading + 1, read_codes-done (suc n) reading codes done, omega arith, omega arith)
  | inr more ↦
      let (r, hit, above, below) = read_codes-within n (reading + 1) codes (omega arith) in
      (r, read_codes-more (suc n) reading codes more ∙ hit, omega (arith, above), below)
]

-- The key of the code `c`, or of the code with 0xe0 in front, and the bytes of pressing and releasing it
unfoldable pub key_of : (extended : Bool) (c : ℕ) → ℕ
key_of extended c = if extended then element sc2_extended c else element sc2_basic c

unfoldable pub press_bytes : (extended : Bool) (c : ℕ) → ℕ → ℕ
press_bytes true c i = if i == 0 then 0xe0 else c
press_bytes false c i = c

unfoldable pub release_bytes : (extended : Bool) (c : ℕ) → ℕ → ℕ
release_bytes true c i = if i == 0 then 0xe0 else if i == 1 then 0xf0 else c
release_bytes false c i = if i == 0 then 0xf0 else c

unfoldable pub codes_end : Bool → ℕ
codes_end extended = if extended then 126 else 132

pub press_basic :
    (c : ℕ) (pressed : ℕ → Bool)
    → c < 132
    → (read_codes 8 0 (λ i. c) ≡ some 1)
      × (decode_sc2 1 (λ i. c) pressed
          ≡ (set_pressed (element sc2_basic c) true pressed, element sc2_basic c))
unfolding is_complete decode_sc2 decode_one
press_basic c pressed h = (read_codes-done 7 0 (λ i. c) (ground arith), ground arith)

pub release_basic :
    (c : ℕ) (pressed : ℕ → Bool)
    → c < 132
    → (read_codes 8 0 (release_bytes false c) ≡ some 2)
      × (decode_sc2 2 (release_bytes false c) pressed
          ≡ (set_pressed (element sc2_basic c) false pressed, element sc2_basic c))
unfolding is_complete decode_sc2 decode_two release_bytes
release_basic c pressed h = (
  read_codes-more 7 0 (release_bytes false c) (ground arith)
      ∙ read_codes-done 6 1 (release_bytes false c) (ground arith),
  ground arith,
)

not_inv_extended : (c : ℕ) → element sc2_extended c ≢ KeyCode.inv → (c ≢ 0x12) × (c ≢ 0x7c)
unfolding element
not_inv_extended c ne = (λ e. ne (rw e refl), λ e. ne (rw e refl))

pub press_extended :
    (c : ℕ) (pressed : ℕ → Bool)
    → c < 126
    → element sc2_extended c ≢ KeyCode.inv
    → (read_codes 8 0 (press_bytes true c) ≡ some 2)
      × (decode_sc2 2 (press_bytes true c) pressed
          ≡ (set_pressed (element sc2_extended c) true pressed, element sc2_extended c))
unfolding is_complete decode_sc2 decode_two press_bytes
press_extended c pressed h ne =
    let (not_12, _) = not_inv_extended c ne in
    (
      read_codes-more 7 0 (press_bytes true c) (ground arith)
          ∙ read_codes-done 6 1 (press_bytes true c) (ground (arith, not_12)),
      ground arith,
    )

pub release_extended :
    (c : ℕ) (pressed : ℕ → Bool)
    → c < 126
    → element sc2_extended c ≢ KeyCode.inv
    → (read_codes 8 0 (release_bytes true c) ≡ some 3)
      × (decode_sc2 3 (release_bytes true c) pressed
          ≡ (set_pressed (element sc2_extended c) false pressed, element sc2_extended c))
unfolding is_complete decode_sc2 decode_three release_bytes
release_extended c pressed h ne =
    let (_, not_7c) = not_inv_extended c ne in
    (
      read_codes-more 7 0 (release_bytes true c) (ground arith)
          ∙ read_codes-more 6 1 (release_bytes true c) (ground arith)
          ∙ read_codes-done 5 2 (release_bytes true c) (ground (arith, not_7c)),
      ground arith,
    )
