-- ===== src/Keyboard/Letters.antt =====
-- `get_ascii` of kernel/cpp/Keyboard.cpp on the keys of the letters, against the case mapping of
-- stdlib/cpp/cctype.cpp.
use stable_genius.Common.{
  ℕ, zero, suc, ◌+◌, ◌-◌, ◌≡◌, ◌≤◌, refl, Bool, true, false, not, ◌&&◌, ◌||◌, none, List, [], ◌∷◌,
  ◌==◌, if◌then◌else◌, inl, inr, arith, ap, Bool-cases, first_from, first_from-none, length,
}
use native.Mathlib.Decide.{dec_lt}
use stable_genius.Common.Int.{pos}
use stable_genius.Ctype.{isalpha, toupper}
use stable_genius.Ctype.Classes.{between, class_of, alpha, in_class, class_of-in_class}
use stable_genius.Ctype.Cases.{toupper-tolower, islower_lem}
use stable_genius.Keyboard.{Keyboard, modified, on_keypad, character, get_ascii}
use stable_genius.Keyboard.Tables.{element, ascii_unshift}
use stable_genius.Keyboard.KeyCode

element-beyond : (xs : List ℕ) (k : ℕ) → length xs ≤ k → element xs k ≡ 0
unfolding element
element-beyond [] k h = refl
element-beyond (x ∷ xs) zero h = absurd (omega arith)
element-beyond (x ∷ xs) (suc k) h = element-beyond xs k (omega arith)

-- Whether the key types a small letter without shift
abbrev pub types_letter : ℕ → Bool
types_letter k = between b'a' b'z' (character false k)

-- A key of a letter that has another capital, or that is of the number pad
mismatch : ℕ → Bool
unfolding on_keypad element character
mismatch k = types_letter k && not (character true k + 32 == character false k && not (on_keypad k))

no_mismatch : first_from mismatch 161 0 ≡ none
unfolding mismatch first_from
no_mismatch = refl

agrees :
    (u v : ℕ) (pad : Bool)
    → (between b'a' b'z' u && not (v + 32 == u && not pad)) ≡ false
    → between b'a' b'z' u ≡ true
    → (v + 32 ≡ u) × (pad ≡ false)
agrees u v true e f = absurd (ground arith)
agrees u v false e f = ground arith

character-beyond : (k : ℕ) → 161 ≤ k → character false k ≡ 0
unfolding character
character-beyond k h = element-beyond ascii_unshift k h

capital :
    (k : ℕ)
    → types_letter k ≡ true
    → (character true k + 32 ≡ character false k) × (on_keypad k ≡ false)
capital k e = elim (dec_lt k 161) [
  | yes h ↦
      let m = first_from-none mismatch 161 0 k no_mismatch (omega arith) (omega arith) in
      agrees (character false k) (character true k) (on_keypad k) (unfold mismatch in m) e
  | no h ↦ absurd (ground (arith, character-beyond k (omega arith)))
]

alpha_letter :
    (u : ℕ)
    → between b'a' b'z' u ≡ true
    → ((isalpha (pos u) == 0) ≡ false) × ((isalpha (pos (u - 32)) == 0) ≡ false)
unfolding class_of in_class
alpha_letter u e =
    (ground (arith, class_of-in_class alpha u), ground (arith, class_of-in_class alpha (u - 32)))

toupper_letter : (u : ℕ) → between b'a' b'z' u ≡ true → toupper (pos u) ≡ pos (u - 32)
unfolding in_class
toupper_letter u e =
    let (_, upper, _, _) = toupper-tolower u in ground (arith, upper, islower_lem u)

-- Whether shift and the caps lock together ask for the capital
abbrev pub capitals : Keyboard → Bool
capitals s =
    let shift = s.pressed KeyCode.lshift || s.pressed KeyCode.rshift in
    if s.capslock then not shift else shift

get_ascii-character :
    (k : ℕ) (s : Keyboard)
    → modified s.pressed ≡ false
    → on_keypad k ≡ false
    → ((isalpha (pos (character false k)) == 0) ≡ false)
    → ((isalpha (pos (character true k)) == 0) ≡ false)
    → get_ascii k s ≡ character (capitals s) k
unfolding get_ascii
get_ascii-character k s plain pad small large =
    elim (Bool-cases (s.pressed KeyCode.lshift || s.pressed KeyCode.rshift)) [
      | inl shift ↦ elim (Bool-cases s.capslock) [
        | inl caps ↦ ground arith
        | inr caps ↦ ground arith
      ]
      | inr shift ↦ elim (Bool-cases s.capslock) [
        | inl caps ↦ ground arith
        | inr caps ↦ ground arith
      ]
    ]

-- For a key that types a small letter, with no modifier but shift down, `get_ascii` gives that letter or, if
-- exactly one of shift and the caps lock is on, what `toupper` makes of it. The number lock makes
-- no difference.
pub get_ascii-letter :
    (k : ℕ) (s : Keyboard)
    → types_letter k ≡ true
    → modified s.pressed ≡ false
    → pos (get_ascii k s)
      ≡ (if capitals s then toupper (pos (character false k)) else pos (character false k))
get_ascii-letter k s e plain =
    let (upper, pad) = capital k e in
    let (small, large) = alpha_letter (character false k) e in
    let below : character true k ≡ character false k - 32 = omega (arith, upper) in
    let large' : (isalpha (pos (character true k)) == 0) ≡ false = rw below large in
    rw (get_ascii-character k s plain pad small large', toupper_letter (character false k) e)
      (either (capitals s) (ap pos below))
  where
    either :
        (b : Bool)
        → pos (character true k) ≡ pos (character false k - 32)
        → pos (character b k)
          ≡ (if b then pos (character false k - 32) else pos (character false k))
    either true h = h
    either false h = refl
