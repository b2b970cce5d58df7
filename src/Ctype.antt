-- ===== src/Ctype.antt =====
-- stdlib/cpp/cctype.cpp: the table of character properties and the functions that consult it.
pub mod Classes
pub mod Cases
use Prim.Native.Nat.{bit_and, bit_or}
use stable_genius.Common.{
  ℕ, zero, suc, ◌+◌, ◌-◌, Bool, List, [], ◌∷◌, ◌++◌, ltb, leb, ◌&&◌, if◌then◌else◌,
}
use stable_genius.Common.Int.{ℤ, pos, negsuc}

abbrev pub alnum_mk : ℕ
alnum_mk = 0x0001

abbrev pub alpha_mk : ℕ
alpha_mk = 0x0002

abbrev pub cntrl_mk : ℕ
cntrl_mk = 0x0004

abbrev pub digit_mk : ℕ
digit_mk = 0x0008

abbrev pub graph_mk : ℕ
graph_mk = 0x0010

abbrev pub lower_mk : ℕ
lower_mk = 0x0020

abbrev pub print_mk : ℕ
print_mk = 0x0040

abbrev pub punct_mk : ℕ
punct_mk = 0x0080

abbrev pub space_mk : ℕ
space_mk = 0x0100

abbrev pub upper_mk : ℕ
upper_mk = 0x0200

abbrev pub xdigit_mk : ℕ
xdigit_mk = 0x0400

-- `a | b | ...` over a list of masks
any_of : List ℕ → ℕ
any_of [] = 0
any_of (m ∷ ms) = bit_or m (any_of ms)

-- `n` rows of the table with the same masks, in front of the rows that follow.
rows : ℕ → List ℕ → List ℕ → List ℕ
unfolding any_of
rows zero ms rest = rest
rows (suc n) ms rest = any_of ms ∷ rows n ms rest

abbrev punct_masks : List ℕ
punct_masks = graph_mk ∷ print_mk ∷ punct_mk ∷ []

abbrev upper_masks : List ℕ
upper_masks = alnum_mk ∷ alpha_mk ∷ graph_mk ∷ print_mk ∷ upper_mk ∷ []

abbrev lower_masks : List ℕ
lower_masks = alnum_mk ∷ alpha_mk ∷ graph_mk ∷ lower_mk ∷ print_mk ∷ []

-- `properties[128]`, in runs of equal rows: codes 0, 9, 14, 32, 33, 48, 58, 65, 71, 91, 97, 103, 123
-- and 127 begin them.
pub properties : List ℕ
unfolding rows
properties = rows 9 (cntrl_mk ∷ []) (
    rows 5 (cntrl_mk ∷ space_mk ∷ []) (
      rows 18 (cntrl_mk ∷ []) (
        rows 1 (print_mk ∷ space_mk ∷ []) (
          rows 15 punct_masks (
            rows 10 (alnum_mk ∷ digit_mk ∷ graph_mk ∷ print_mk ∷ xdigit_mk ∷ []) (
              rows 7 punct_masks (
                rows 6 (upper_masks ++ (xdigit_mk ∷ [])) (
                  rows 20 upper_masks (
                    rows 6 punct_masks (
                      rows 6 (lower_masks ++ (xdigit_mk ∷ [])) (
                        rows 20 lower_masks
                          (rows 4 punct_masks (rows 1 (cntrl_mk ∷ []) [])))))))))))))

-- Row `c` of the table.
row : List ℕ → ℕ → ℕ
row [] c = 0
row (p ∷ ps) zero = p
row (p ∷ ps) (suc c) = row ps c

-- `istype(c, test)`; EOF is -1.
pub istype : ℤ → ℕ → ℕ
unfolding properties row
istype (negsuc n) test = 0
istype (pos c) test = if ltb 127 c then 0 else bit_and (row properties c) test

pub isalnum : ℤ → ℕ
isalnum i = istype i alnum_mk

pub isalpha : ℤ → ℕ
isalpha i = istype i alpha_mk

pub iscntrl : ℤ → ℕ
iscntrl i = istype i cntrl_mk

pub isdigit : ℤ → ℕ
isdigit i = istype i digit_mk

pub isgraph : ℤ → ℕ
isgraph i = istype i graph_mk

pub islower : ℤ → ℕ
islower i = istype i lower_mk

pub isprint : ℤ → ℕ
isprint i = istype i print_mk

pub ispunct : ℤ → ℕ
ispunct i = istype i punct_mk

pub isspace : ℤ → ℕ
isspace i = istype i space_mk

pub isupper : ℤ → ℕ
isupper i = istype i upper_mk

pub isxdigit : ℤ → ℕ
isxdigit i = istype i xdigit_mk

-- `tolower(ch)` and `toupper(ch)`
pub tolower : ℤ → ℤ
tolower (negsuc n) = negsuc n
tolower (pos ch) = if leb b'A' ch && leb ch b'Z' then pos (ch - b'A' + b'a') else pos ch

pub toupper : ℤ → ℤ
toupper (negsuc n) = negsuc n
toupper (pos ch) = if leb b'a' ch && leb ch b'z' then pos (ch - b'a' + b'A') else pos ch
