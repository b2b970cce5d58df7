-- ===== src/Text/Kprintf.antt =====
-- `kvprintf` of kernel/cpp/no_heap_util.cpp: formatted output to a character device. The arguments are
-- the 32-bit words that `va_arg` steps over, an `int` or a pointer one of them and a `long long` two,
-- the lower first. The device is the list of the characters written to it. The local buffer is a
-- memory of its own. Printing of floating point numbers is a parameter, from the style and the
-- words of the number to the text.
pub mod Counts
use stable_genius.Common.{
  ℕ, zero, suc, ◌+◌, ◌-◌, ◌*◌, ◌%◌, ◌^◌, Bool, true, false, ◌||◌, Option, none, some, List, [], ◌∷◌,
  ◌++◌, ◌==◌, ltb, length, if◌then◌else◌,
}
use stable_genius.Common.Int.{ℤ, pos, negsuc, minus_one}
use stable_genius.Text.{Memory, strlen}
use stable_genius.Text.Numbers.{uitoa, itoa}
use stable_genius.Text.Strings.{take_bytes}

abbrev pub Args : Type 0
Args = List ℕ

pub record Output : Type 0 where
  pub written : List ℕ
  pub ret_val : ℕ

pub record Flags : Type 0 where
  pub long_format : Bool
  pub long_long_format : Bool
  pub long_double_format : Bool

abbrev pub no_flags : Flags
no_flags = record { long_format = false; long_long_format = false; long_double_format = false }

pub write_char : ℕ → Output → Output
write_char c o = record o { written = o.written ++ c ∷ [] }

-- `for (const char* c = buffer; *c != '\0'; ++c) dest->write_char(*c);`
pub write_text : List ℕ → Output → Output
write_text [] o = o
write_text (c ∷ cs) o = write_text cs (write_char c o)

abbrev pub count : ℕ → Output → Output
count n o = record o { ret_val = o.ret_val + n }

-- The string at an address, and `none` where it has no end.
unfoldable pub text_at : Memory → ℕ → Option (List ℕ)
text_at m p = elim (strlen m p) [ none ↦ none | some n ↦ some (take_bytes n p m) ]

-- The text that a call leaves in the buffer.
unfoldable pub buffer_text : Option Memory → Option (List ℕ)
buffer_text none = none
buffer_text (some m) = text_at m 1

abbrev pub blank : Memory
blank a = 0

-- `va_arg(arg, unsigned int)` and `va_arg(arg, unsigned long long int)`
unfoldable pub arg_word : Args → Option (ℕ × Args)
arg_word [] = none
arg_word (w ∷ args) = some (w, args)

unfoldable pub arg_long_long : Args → Option (ℕ × Args)
arg_long_long (low ∷ high ∷ args) = some (low + high * 2 ^ 32, args)
arg_long_long _ = none

-- An unsigned number of `w` bits as the signed one of the same bits
unfoldable pub as_signed : (bits n : ℕ) → ℤ
as_signed bits n = if ltb n (2 ^ (bits - 1)) then pos n else negsuc (2 ^ bits - 1 - n)

abbrev pub arg_number : Flags → Args → Option (ℕ × Args)
arg_number f args = if f.long_long_format then arg_long_long args else arg_word args

-- A case that prints a prefix and the text of a buffer, and counts both.
unfoldable pub print_buffer :
    (prefix : List ℕ) (n : ℕ) → Option (List ℕ) → Args → Output → Option (Args × Output)
print_buffer prefix n none args o = none
print_buffer prefix n (some text) args o =
    some (args, count (length text) (write_text text (count n (write_text prefix o))))

-- The cases of the `switch`, with the arguments that they take.
unfoldable pub print_char : Option (ℕ × Args) → Output → Option (Args × Output)
print_char none o = none
print_char (some (w, args)) o = some (args, count 1 (write_char (w % 2 ^ 8) o))

unfoldable pub print_signed : Flags → Option (ℕ × Args) → Output → Option (Args × Output)
print_signed f none o = none
print_signed f (some (n, args)) o =
    let value = as_signed (if f.long_long_format then 64 else 32) n in
    print_buffer [] 0 (buffer_text (itoa value 1 10 blank)) args o

unfoldable pub print_unsigned :
    (prefix : List ℕ) (n radix : ℕ) → Option (ℕ × Args) → Output → Option (Args × Output)
print_unsigned prefix n radix none o = none
print_unsigned prefix n radix (some (value, args)) o =
    print_buffer prefix n (buffer_text (uitoa value 1 radix blank)) args o

unfoldable pub print_string : Memory → Option (ℕ × Args) → Output → Option (Args × Output)
print_string m none o = none
print_string m (some (s, args)) o = print_buffer [] 0 (text_at m s) args o

unfoldable pub print_pointer : Option (ℕ × Args) → Output → Option (Args × Output)
print_pointer none o = none
print_pointer (some (ptr, args)) o =
    print_buffer (b'0' ∷ b'X' ∷ []) 2 (buffer_text (itoa (pos ptr) 1 16 blank)) args o

-- The words of a `double` or a `long double`, and the arguments behind them
unfoldable pub arg_double : Flags → Args → Option (List ℕ × Args)
arg_double f (a ∷ b ∷ c ∷ args) =
    if f.long_double_format then some (a ∷ b ∷ c ∷ [], args) else some (a ∷ b ∷ [], c ∷ args)
arg_double f (a ∷ b ∷ []) = if f.long_double_format then none else some (a ∷ b ∷ [], [])
arg_double f _ = none

unfoldable pub print_double :
    (dtoa : ℕ → List ℕ → List ℕ) → ℕ → Option (List ℕ × Args) → Output → Option (Args × Output)
print_double dtoa style none o = none
print_double dtoa style (some (words, args)) o = print_buffer [] 0 (some (dtoa style words)) args o

abbrev pub bad_format : List ℕ
bad_format = b'B' ∷ b'a' ∷ b'd' ∷ b' ' ∷ b'F' ∷ b'o' ∷ b'r' ∷ b'm' ∷ b'a' ∷ b't' ∷ []

-- The `switch`, at a character that is no length specifier
unfoldable pub convert :
    (ℕ → List ℕ → List ℕ) → Memory → (c : ℕ) → Flags → Args → Output → Option (Args × Output)
convert dtoa m c f args o =
    if c == b'c'
    then print_char (arg_word args) o
    else if c == b'd' || c == b'i'
    then print_signed f (arg_number f args) o
    else if c == b'u'
    then print_unsigned [] 0 10 (arg_number f args) o
    else if c == b'o'
    then print_unsigned (b'0' ∷ []) 1 8 (arg_number f args) o
    else if c == b'X'
    then print_unsigned (b'0' ∷ b'X' ∷ []) 2 16 (arg_number f args) o
    else if c == b's'
    then print_string m (arg_word args) o
    else if c == b'p'
    then print_pointer (arg_word args) o
    else if c == b'f' || (c == b'e' || c == b'g')
    then print_double dtoa c (arg_double f args) o
    else if c == b'%'
    then some (args, count 1 (write_char b'%' o))
    else some (args, count 10 (write_text bad_format o))

-- The loop over the length specifiers, on fuel: where the conversion stands, and the flags.
pub skip_flags : (fuel traverse : ℕ) → Memory → Flags → Option (ℕ × Flags)
skip_flags zero t m f = none
skip_flags (suc n) t m f =
    let c = m (t + 1) in
    let long = skip_flags n (t + 1) m (
      if f.long_format
      then record f { long_long_format = true }
      else record f { long_format = true }) in
    let double = skip_flags n (t + 1) m (record f { long_double_format = true }) in
    if c == b'l' then long else if c == b'L' then double else some (t + 1, f)

-- The loop over the format, on fuel. `none` also stands for arguments that are missing.
pub kvprintf_loop :
    (ℕ → List ℕ → List ℕ) → (fuel traverse : ℕ) → Memory → Args → Output → Option Output
kvprintf_loop dtoa zero t m args o = none
kvprintf_loop dtoa (suc n) t m args o =
    let plain = kvprintf_loop dtoa n (t + 1) m args (count 1 (write_char (m t) o)) in
    let format : Option Output = elim (skip_flags (suc n) t m no_flags) [
      | none ↦ none
      | some (t', f) ↦ elim (convert dtoa m (m t') f args o) [
        | none ↦ none
        | some (args', o') ↦ kvprintf_loop dtoa n (t' + 1) m args' o'
      ]
    ] in
    if m t == 0 then some o else if m t == b'%' then format else plain

-- `kvprintf`, at a null pointer for the device or the format, and otherwise; `EOF` is -1.
unfoldable pub kvprintf :
    (dest fmt : ℕ) → (ℕ → List ℕ → List ℕ) → Memory → Args → Option (List ℕ × ℤ)
kvprintf dest fmt dtoa m args =
    if dest == 0 || fmt == 0
    then some ([], minus_one)
    else elim (kvprintf_loop dtoa (2 ^ 32) fmt m args (record { written = []; ret_val = 0 })) [
      | none ↦ none
      | some o ↦ some (o.written, pos o.ret_val)
    ]
