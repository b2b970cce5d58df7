-- ===== src/Text/Strings.antt =====
-- stdlib/cpp/cstring.cpp. A null pointer is 0, and pointers do not wrap. A loop that looks for the end
-- of a string is on fuel, a round for each byte of the memory, and gives `none` where it finds none.
pub mod Copies
pub mod Compares
use stable_genius.Common.{
  ℕ, zero, suc, ◌+◌, ◌-◌, ◌%◌, ◌^◌, Bool, true, false, ◌&&◌, ◌||◌, not, Option, none, some, List,
  [], ◌∷◌, ◌==◌, ltb, leb, if◌then◌else◌,
}
use stable_genius.Common.Int.{ℤ, pos, sub_int}
use stable_genius.Text.{Memory, write, strlen}

-- `for (i = first; i < first + rounds; ++i) dest[i] = src[i];`
pub copy_loop : (rounds dest src i : ℕ) → Memory → Memory
copy_loop zero dest src i m = m
copy_loop (suc n) dest src i m = copy_loop n dest src (i + 1) (write (dest + i) (m (src + i)) m)

-- `for (i = first; i < first + rounds; ++i) dest[i] = v;`
pub fill_loop : (rounds dest v i : ℕ) → Memory → Memory
fill_loop zero dest v i m = m
fill_loop (suc n) dest v i m = fill_loop n dest v (i + 1) (write (dest + i) v m)

-- The results of the copying functions are the memory and the pointer that they return.
unfoldable pub memcpy : (dest src count : ℕ) → Memory → Memory × ℕ
memcpy dest src count m =
    if dest == 0 || src == 0 then (m, 0) else (copy_loop count dest src 0 m, dest)

unfoldable pub memset : (dest value count : ℕ) → Memory → Memory × ℕ
memset dest value count m =
    if dest == 0 then (m, 0) else (fill_loop count dest (value % 2 ^ 8) 0 m, dest)

-- The two loops of `memmove`: to the temporary array, and from it.
pub take_bytes : (rounds src : ℕ) → Memory → List ℕ
take_bytes zero src m = []
take_bytes (suc n) src m = m src ∷ take_bytes n (src + 1) m

pub put_bytes : (dest : ℕ) → List ℕ → Memory → Memory
put_bytes dest [] m = m
put_bytes dest (b ∷ bs) m = put_bytes (dest + 1) bs (write dest b m)

unfoldable pub memmove : (dest src count : ℕ) → Memory → Memory × ℕ
memmove dest src count m =
    if dest == 0 || src == 0
    then (m, 0)
    else if count == 0
    then (m, dest)
    else (put_bytes dest (take_bytes count src m) m, dest)

-- The loop of `strcpy`, which asks for the length of `src` in each round.
pub strcpy_loop : (fuel dest src i : ℕ) → Memory → Option Memory
strcpy_loop zero dest src i m = none
strcpy_loop (suc n) dest src i m =
    let rest = strcpy_loop n dest src (i + 1) (write (dest + i) (m (src + i)) m) in
    elim (strlen m src) [ none ↦ none | some len ↦ if leb i len then rest else some m ]

unfoldable pub strcpy : (dest src : ℕ) → Memory → Option (Memory × ℕ)
strcpy dest src m =
    if src == 0 || dest == 0
    then some (m, 0)
    else elim (strcpy_loop (2 ^ 32 + 1) dest src 0 m) [ none ↦ none | some m' ↦ some (m', dest) ]

-- `for (; src[i] && i < count; ++i) dest[i] = src[i];`, with the rounds left: the memory and `i`.
pub strncpy_loop : (rounds dest src i : ℕ) → Memory → Memory × ℕ
strncpy_loop zero dest src i m = (m, i)
strncpy_loop (suc n) dest src i m =
    let rest = strncpy_loop n dest src (i + 1) (write (dest + i) (m (src + i)) m) in
    if m (src + i) == 0 then (m, i) else rest

unfoldable pub strncpy : (dest src count : ℕ) → Memory → Memory × ℕ
strncpy dest src count m =
    if dest == 0 || src == 0
    then (m, 0)
    else (let (m', i) = strncpy_loop count dest src 0 m in
        (fill_loop (count - i) dest 0 i m', dest))

-- `for (i = 0; src[i]; ++i) dest[start + i] = src[i];`, on fuel: the memory and `i`.
pub strcat_loop : (fuel dest src i : ℕ) → Memory → Option (Memory × ℕ)
strcat_loop zero dest src i m = none
strcat_loop (suc n) dest src i m =
    let rest = strcat_loop n dest src (i + 1) (write (dest + i) (m (src + i)) m) in
    if m (src + i) == 0 then some (m, i) else rest

unfoldable pub strcat : (dest src : ℕ) → Memory → Option (Memory × ℕ)
strcat dest src m = if dest == 0 || src == 0 then some (m, 0) else elim (strlen m dest) [
  | none ↦ none
  | some start ↦ elim (strcat_loop (2 ^ 32) (dest + start) src 0 m) [
    | none ↦ none
    | some (m', i) ↦ some (write (dest + start + i) 0 m', dest)
  ]
]

-- The loop of `strcmp`, on fuel.
pub strcmp_loop : (fuel l r : ℕ) → Memory → Option ℤ
strcmp_loop zero l r m = none
strcmp_loop (suc n) l r m =
    let rest = strcmp_loop n (l + 1) (r + 1) m in
    if not (m l == 0) && m l == m r then rest else some (sub_int (m l) (m r))

unfoldable pub strcmp : (lhs rhs : ℕ) → Memory → Option ℤ
strcmp lhs rhs m = strcmp_loop (2 ^ 32) lhs rhs m

pub strncmp : (lhs rhs count : ℕ) → Memory → ℤ
strncmp l r zero m = pos 0
strncmp l r (suc zero) m = sub_int (m l) (m r)
strncmp l r (suc (suc n)) m =
    let rest = strncmp (l + 1) (r + 1) (suc n) m in
    if not (m l == 0) && m l == m r then rest else sub_int (m l) (m r)

pub memcmp : (lhs rhs count : ℕ) → Memory → ℤ
memcmp l r zero m = pos 0
memcmp l r (suc n) m =
    let rest = memcmp (l + 1) (r + 1) n m in if m l == m r then rest else sub_int (m l) (m r)

-- The loop of `memchr`; the result 0 is `NULL`.
pub memchr_loop : (count p c : ℕ) → Memory → ℕ
memchr_loop zero p c m = 0
memchr_loop (suc n) p c m = let rest = memchr_loop n (p + 1) c m in if c == m p then p else rest

unfoldable pub memchr : (ptr ch count : ℕ) → Memory → ℕ
memchr ptr ch count m = if ptr == 0 then 0 else memchr_loop count ptr (ch % 2 ^ 8) m
