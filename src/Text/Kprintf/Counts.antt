-- ===== src/Text/Kprintf/Counts.antt =====
-- The result of `kvprintf` is the number of characters written.
use stable_genius.Common.{
  ℕ, zero, suc, ◌+◌, ◌%◌, ◌^◌, ◌≡◌, ◌≢◌, refl, Bool, true, false, ◌||◌, Option, none, some, List,
  [], ◌∷◌, ◌==◌, length, length-append, if◌then◌else◌, arith, Bool-cases, Option-cases, inl, inr,
}
use stable_genius.Common.Int.{ℤ, pos}
use stable_genius.Text.{Memory}
use stable_genius.Text.Kprintf.{
  Args, Output, Flags, no_flags, write_char, write_text, count, print_buffer, print_char,
  print_signed, print_unsigned, print_string, print_pointer, print_double, bad_format, convert,
  skip_flags, kvprintf_loop, kvprintf,
}

-- The count is that of the characters written.
abbrev IsCounted : Output → Type 0
IsCounted o = o.ret_val ≡ length o.written

length-write_text :
    (cs : List ℕ) (o : Output)
    → (length (write_text cs o).written ≡ length o.written + length cs)
      × ((write_text cs o).ret_val ≡ o.ret_val)
unfolding write_text write_char
length-write_text [] o = omega arith
length-write_text (c ∷ cs) o =
    let (more, same) = length-write_text cs (write_char c o) in
    (omega (arith, more, length-append o.written (c ∷ [])), same)

-- What a case leaves, where it leaves something.
abbrev Keeps : Option (Args × Output) → Type 0
Keeps none = Unit
Keeps (some (args, o)) = IsCounted o

if-Keeps :
    (b : Bool) (x y : Option (Args × Output)) → Keeps x → Keeps y → Keeps (if b then x else y)
if-Keeps true x y k l = k
if-Keeps false x y k l = l

module _ (o : Output) (v : IsCounted o) where
  print_buffer-Keeps :
      (prefix : List ℕ) (n : ℕ) (text : Option (List ℕ)) (args : Args)
      → length prefix ≡ n
      → Keeps (print_buffer prefix n text args o)
  unfolding print_buffer
  print_buffer-Keeps prefix n none args h = tt
  print_buffer-Keeps prefix n (some text) args h =
      let (a, b) = length-write_text prefix o in
      let (c, d) = length-write_text text (count n (write_text prefix o)) in
      omega (arith, a, b, c, d, h, v)

  print_char-Keeps : (a : Option (ℕ × Args)) → Keeps (print_char a o)
  unfolding print_char write_char
  print_char-Keeps none = tt
  print_char-Keeps (some (w, args)) = omega (arith, v, length-append o.written ((w % 2 ^ 8) ∷ []))

  print_signed-Keeps : (f : Flags) (a : Option (ℕ × Args)) → Keeps (print_signed f a o)
  unfolding print_signed
  print_signed-Keeps f none = tt
  print_signed-Keeps f (some (w, args)) = print_buffer-Keeps [] 0 _ args refl

  print_unsigned-Keeps :
      (prefix : List ℕ) (n radix : ℕ) (a : Option (ℕ × Args))
      → length prefix ≡ n
      → Keeps (print_unsigned prefix n radix a o)
  unfolding print_unsigned
  print_unsigned-Keeps prefix n radix none h = tt
  print_unsigned-Keeps prefix n radix (some (w, args)) h = print_buffer-Keeps prefix n _ args h

  print_string-Keeps : (m : Memory) (a : Option (ℕ × Args)) → Keeps (print_string m a o)
  unfolding print_string
  print_string-Keeps m none = tt
  print_string-Keeps m (some (w, args)) = print_buffer-Keeps [] 0 _ args refl

  print_pointer-Keeps : (a : Option (ℕ × Args)) → Keeps (print_pointer a o)
  unfolding print_pointer
  print_pointer-Keeps none = tt
  print_pointer-Keeps (some (w, args)) = print_buffer-Keeps (b'0' ∷ b'X' ∷ []) 2 _ args refl

  print_double-Keeps :
      (dtoa : ℕ → List ℕ → List ℕ) (style : ℕ) (a : Option (List ℕ × Args))
      → Keeps (print_double dtoa style a o)
  unfolding print_double
  print_double-Keeps dtoa style none = tt
  print_double-Keeps dtoa style (some (w, args)) = print_buffer-Keeps [] 0 _ args refl

  percent-IsCounted : IsCounted (count 1 (write_char b'%' o))
  unfolding write_char
  percent-IsCounted = omega (arith, v, length-append o.written (b'%' ∷ []))

  bad_format-IsCounted : IsCounted (count 10 (write_text bad_format o))
  bad_format-IsCounted = omega (arith, v, length-write_text bad_format o)

  convert-Keeps :
      (dtoa : ℕ → List ℕ → List ℕ) (m : Memory) (c : ℕ) (f : Flags) (args : Args)
      → Keeps (convert dtoa m c f args o)
  unfolding convert
  convert-Keeps dtoa m c f args = if-Keeps (c == b'c') _ _ (print_char-Keeps _) (
      if-Keeps (c == b'd' || c == b'i') _ _ (print_signed-Keeps f _) (
        if-Keeps (c == b'u') _ _ (print_unsigned-Keeps [] 0 10 _ refl) (
          if-Keeps (c == b'o') _ _ (print_unsigned-Keeps (b'0' ∷ []) 1 8 _ refl) (
            if-Keeps (c == b'X') _ _ (print_unsigned-Keeps (b'0' ∷ b'X' ∷ []) 2 16 _ refl) (
              if-Keeps (c == b's') _ _ (print_string-Keeps m _) (
                if-Keeps (c == b'p') _ _ (print_pointer-Keeps _) (
                  if-Keeps (c == b'f' || (c == b'e' || c == b'g')) _ _ (print_double-Keeps dtoa c _)
                    (if-Keeps (c == b'%') _ _ percent-IsCounted bad_format-IsCounted))))))))

  plain-IsCounted : (c : ℕ) → IsCounted (count 1 (write_char c o))
  unfolding write_char
  plain-IsCounted c = omega (arith, v, length-append o.written (c ∷ []))

module _ (dtoa : ℕ → List ℕ → List ℕ) (m : Memory) where
  kvprintf_loop-IsCounted :
      (f t : ℕ) (args : Args) (o : Output) {o' : Output}
      → IsCounted o
      → kvprintf_loop dtoa f t m args o ≡ some o'
      → IsCounted o'
  unfolding kvprintf_loop
  kvprintf_loop-IsCounted zero t args o v e = absurd (ground (arith, e))
  kvprintf_loop-IsCounted (suc f) t args o {o'} v e = elim (Bool-cases (m t == 0)) [
    | inl over ↦ let same : o ≡ o' = ground (arith, e, over) in rw (← same) v
    | inr more ↦ elim (Bool-cases (m t == b'%')) [
      | inr plain ↦
          kvprintf_loop-IsCounted f (t + 1) args (count 1 (write_char (m t) o)) {o' = o'}
            (plain-IsCounted o v (m t)) (ground (arith, e, more, plain))
      | inl format ↦ elim (Option-cases (skip_flags (suc f) t m no_flags)) [
        | inl gone ↦ absurd (ground (arith, e, more, format, gone))
        | inr ((t', g), skipped) ↦ elim (Option-cases (convert dtoa m (m t') g args o)) [
          | inl gone ↦ absurd (ground (arith, e, more, format, skipped, gone))
          | inr ((args', o1), done) ↦
              kvprintf_loop-IsCounted f (t' + 1) args' o1 {o' = o'}
                (rw done at (convert-Keeps o v dtoa m (m t') g args))
                (ground (arith, e, more, format, skipped, done))
        ]
      ]
    ]
  ]

-- The result of `kvprintf` is the number of the characters that it has written, if it comes to an end
-- and neither pointer is null.
pub kvprintf-length :
    (dest fmt : ℕ) (dtoa : ℕ → List ℕ → List ℕ) (m : Memory) (args : Args) (written : List ℕ)
    (n : ℤ)
    → dest ≢ 0
    → fmt ≢ 0
    → kvprintf dest fmt dtoa m args ≡ some (written, n)
    → n ≡ pos (length written)
unfolding kvprintf
kvprintf-length dest fmt dtoa m args written n d f e =
    let start : Output = record { written = []; ret_val = 0 } in
    elim (Option-cases (kvprintf_loop dtoa (2 ^ 32) fmt m args start)) [
      | inl gone ↦ absurd (ground (arith, d, f, e, gone))
      | inr (o, done) ↦
          let counted = kvprintf_loop-IsCounted dtoa m (2 ^ 32) fmt args start {o' = o} refl done in
          ground (arith, d, f, e, done, counted)
    ]
