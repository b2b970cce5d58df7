-- ===== src/Ctype/Classes.antt =====
-- The table against the ranges of ASCII that the classes name.
use stable_genius.Common.{
  ℕ, ◌<◌, ◌≡◌, refl, Bool, true, false, not, ◌&&◌, ◌||◌, ltb, ◌==◌, arith, Bool-cases, inl, inr,
  first_from, first_from-none, none,
}
use stable_genius.Common.Int.{ℤ, pos, negsuc}
use stable_genius.Ctype.{
  istype, isalnum, isalpha, iscntrl, isdigit, isgraph, islower, isprint, ispunct, isspace, isupper,
  isxdigit,
}

-- Whether `c` lies in the range from `low` to `high`, both ends included.
abbrev pub between : ℕ → ℕ → ℕ → Bool
between low high c = not (ltb c low || ltb high c)

-- A C condition.
abbrev pub truth : ℕ → Bool
truth n = not (n == 0)

abbrev same : Bool → Bool → Bool
same true b = b
same false b = not b

eq_of_same : (a b : Bool) → not (same a b) ≡ false → a ≡ b
eq_of_same a b h = ground arith

abbrev letter : ℕ → Bool
letter c = between b'A' b'Z' c || between b'a' b'z' c

-- The eleven classes, as the ranges of codes that the C standard names for the "C" locale.
pub data Class : Type 0 where
  alnum alpha cntrl digit graph lower print punct space upper xdigit : Class

unfoldable pub class_of : Class → ℤ → ℕ
class_of alnum = isalnum
class_of alpha = isalpha
class_of cntrl = iscntrl
class_of digit = isdigit
class_of graph = isgraph
class_of lower = islower
class_of print = isprint
class_of punct = ispunct
class_of space = isspace
class_of upper = isupper
class_of xdigit = isxdigit

unfoldable pub in_class : Class → ℕ → Bool
in_class alnum c = letter c || between b'0' b'9' c
in_class alpha c = letter c
in_class cntrl c = ltb c 32 || c == 127
in_class digit c = between b'0' b'9' c
in_class graph c = between 33 126 c
in_class lower c = between b'a' b'z' c
in_class print c = between 32 126 c
in_class punct c = between 33 126 c && not (letter c || between b'0' b'9' c)
in_class space c = between 9 13 c || c == 32
in_class upper c = between b'A' b'Z' c
in_class xdigit c = between b'0' b'9' c || between b'A' b'F' c || between b'a' b'f' c

differs : Class → ℕ → Bool
unfolding class_of in_class istype isalnum isalpha iscntrl isdigit isgraph islower isprint ispunct
    isspace isupper isxdigit
differs k c = not (same (truth (class_of k (pos c))) (in_class k c))

-- The search for a code of the table at which a function differs from its class finds none.
table : (k : Class) → first_from (differs k) 128 0 ≡ none
unfolding differs first_from
table alnum = refl
table alpha = refl
table cntrl = refl
table digit = refl
table graph = refl
table lower = refl
table print = refl
table punct = refl
table space = refl
table upper = refl
table xdigit = refl

above : (k : Class) (c : ℕ) → 127 < c → (class_of k (pos c) ≡ 0) × (in_class k c ≡ false)
unfolding class_of in_class istype isalnum isalpha iscntrl isdigit isgraph islower isprint ispunct
    isspace isupper isxdigit
above alnum c h = ground arith
above _ c h = ground arith

-- Each of the eleven functions is nonzero exactly at the codes of its class: at every `int` from 0
-- up, within the table and above it.
pub class_of-in_class : (k : Class) (c : ℕ) → truth (class_of k (pos c)) ≡ in_class k c
class_of-in_class k c = elim (Bool-cases (ltb c 128)) [
  | inl low ↦
      let agree = first_from-none (differs k) 128 0 c (table k) (omega arith) (ground arith) in
      eq_of_same _ _ (unfold differs in agree)
  | inr high ↦ let (out, no_member) = above k c (ground arith) in ground (arith, out, no_member)
]

-- At a negative `int`, EOF among them, all of them are 0.
pub class_of-negsuc : (k : Class) (n : ℕ) → class_of k (negsuc n) ≡ 0
unfolding class_of istype isalnum isalpha iscntrl isdigit isgraph islower isprint ispunct isspace
    isupper isxdigit
class_of-negsuc alnum n = refl
class_of-negsuc _ n = refl
