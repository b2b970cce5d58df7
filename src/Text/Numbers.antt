-- ===== src/Text/Numbers.antt =====
-- `itoa`, `uitoa` and `reverse` of kernel/cpp/no_heap_util.cpp, on a buffer in memory.
pub mod Reverse
pub mod Digits
pub mod Print
use stable_genius.Common.{
  ℕ, zero, suc, ◌+◌, ◌-◌, ◌/◌, ◌%◌, ◌^◌, Bool, true, false, Option, none, some, ◌==◌, ltb, ◌||◌,
  if◌then◌else◌,
}
use stable_genius.Common.Int.{ℤ, pos, negsuc}
use stable_genius.Text.{Memory, write, strlen}

-- `digits[d]`, of "0123456789ABCDEFGHIJKLMNOPQRSTUVWXYZ"
abbrev pub digit : ℕ → ℕ
digit d = if ltb d 10 then b'0' + d else b'A' + (d - 10)

-- The loop of `reverse`; the positions meet before the rounds are over.
pub reverse_loop : (rounds str i j : ℕ) → Memory → Memory
reverse_loop zero str i j m = m
reverse_loop (suc n) str i j m =
    let rest =
      reverse_loop n str (i + 1) (j - 1)
        (write (str + j) (m (str + i)) (write (str + i) (m (str + j)) m)) in
    if ltb i j then rest else m

-- `reverse`; at the empty string the source has -1 for `j`, which is below `i` too.
unfoldable pub reverse : ℕ → Memory → Option Memory
reverse str m = elim (strlen m str) [
  | none ↦ none
  | some len ↦ some (reverse_loop len str 0 (len - 1) m)
]

-- `for (i = 0; value; ++i) { ... }`, on fuel: the buffer and the number of digits.
pub digits_loop : (fuel value buffer radix i : ℕ) → Memory → Option (Memory × ℕ)
digits_loop zero value buffer radix i m = none
digits_loop (suc n) value buffer radix i m =
    let rest =
      digits_loop n (value / radix) buffer radix (i + 1)
        (write (buffer + i) (digit (value % radix)) m) in
    if value == 0 then some (m, i) else rest

-- The digits in reverse order. A value below 2 ^ 64 has 64 digits at most, from radix 2 up; `none`
-- stands for a loop that does not end.
unfoldable pub put_digits : (value buffer radix : ℕ) → Memory → Option (Memory × ℕ)
put_digits value buffer radix m =
    if value == 0 then some (write buffer b'0' m, 1) else digits_loop 65 value buffer radix 0 m

-- The null termination, and the reversal.
unfoldable pub finish : (buffer : ℕ) → Memory × ℕ → Option Memory
finish buffer (m, i) = reverse buffer (write (buffer + i) 0 m)

unfoldable pub uitoa : (value buffer radix : ℕ) → Memory → Option Memory
uitoa value buffer radix m =
    if buffer == 0 || (radix == 0 || ltb 36 radix)
    then some m
    else elim (put_digits value buffer radix m) [ none ↦ none | some r ↦ finish buffer r ]

-- The sign behind the digits
unfoldable pub put_sign : Bool → (buffer : ℕ) → Memory × ℕ → Memory × ℕ
put_sign neg buffer (m, i) = if neg then (write (buffer + i) b'-' m, i + 1) else (m, i)

-- `itoa`. A `long long` has no opposite of -2 ^ 63: there the source's behaviour is undefined, and
-- the result here is `none`.
unfoldable pub itoa : ℤ → (buffer radix : ℕ) → Memory → Option Memory
itoa value buffer radix m =
    if buffer == 0 || (radix == 0 || ltb 36 radix) then some m else elim value [
      | pos n ↦ elim (put_digits n buffer radix m) [
        | none ↦ none
        | some r ↦ finish buffer (put_sign false buffer r)
      ]
      | negsuc n ↦ if n + 1 == 2 ^ 63 then none else elim (put_digits (n + 1) buffer radix m) [
        | none ↦ none
        | some r ↦ finish buffer (put_sign true buffer r)
      ]
    ]
