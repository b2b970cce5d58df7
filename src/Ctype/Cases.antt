-- ===== src/Ctype/Cases.antt =====
-- The two case mappings against the classes.
use stable_genius.Common.{ℕ, ◌+◌, ◌-◌, ◌≡◌, if◌then◌else◌, arith}
use stable_genius.Common.Int.{pos}
use stable_genius.Ctype.{islower, isupper, tolower, toupper}
use stable_genius.Ctype.Classes.{lower, upper, truth, class_of, in_class, class_of-in_class}

isupper_lem : (c : ℕ) → truth (isupper (pos c)) ≡ in_class upper c
unfolding class_of
isupper_lem c = class_of-in_class upper c

pub islower_lem : (c : ℕ) → truth (islower (pos c)) ≡ in_class lower c
unfolding class_of
islower_lem c = class_of-in_class lower c

-- `tolower` adds 32 to the codes that `isupper` accepts and keeps all others, `toupper` takes 32 from
-- those that `islower` accepts and keeps all others, and each undoes the other up to case.
pub toupper-tolower :
    (c : ℕ)
    → (tolower (pos c) ≡ (if truth (isupper (pos c)) then pos (c + 32) else pos c))
      × (toupper (pos c) ≡ (if truth (islower (pos c)) then pos (c - 32) else pos c))
      × (toupper (tolower (pos c)) ≡ toupper (pos c))
      × (tolower (toupper (pos c)) ≡ tolower (pos c))
unfolding tolower toupper in_class
toupper-tolower c =
    (ground (arith, isupper_lem c), ground (arith, islower_lem c), ground arith, ground arith)
