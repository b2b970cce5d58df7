-- ===== src/Text/Numbers/Print.antt =====
-- A printed number reads back as itself.
use stable_genius.Common.{
  ℕ, zero, suc, ◌+◌, ◌-◌, ◌*◌, ◌^◌, ◌≤◌, ◌<◌, ◌≡◌, ◌≢◌, refl, some, ◌==◌, arith, Bool-cases, inl,
  inr, ◌∙◌, sym,
}
use native.Mathlib.Nat.{add-zero}
use stable_genius.Common.Int.{pos, negsuc}
use stable_genius.Text.{Memory, write, IsString}
use stable_genius.Text.Numbers.{put_digits, finish, put_sign, uitoa, itoa}
use stable_genius.Text.Numbers.Reverse.{Reversed, reverse-Reversed}
use stable_genius.Text.Numbers.Digits.{
  Digits, IsDigit, digits_loop-Digits, read_reversed, digit_value, zero_digit, some-Digits,
  read_reversed_same,
}

-- The number that the characters of a text stand for, read from left to right.
unfoldable pub read : (radix : ℕ) → Memory → (p n : ℕ) → ℕ
read radix m p zero = 0
read radix m p (suc n) = read radix m p n * radix + digit_value (m (p + n))

-- Reading a text from the left is reading its reverse from the right.
module _ (radix : ℕ) (m m' : Memory) (p q len : ℕ)
    (turned : (k : ℕ) → k < len → m' (q + k) ≡ m (p + (len - 1 - k))) where
  read-turned : (n : ℕ) → n ≤ len → read radix m' q n ≡ read_reversed radix m (p + (len - n)) n
  unfolding read read_reversed
  read-turned zero h = refl
  read-turned (suc n) h =
      let ih = read-turned n (omega arith) in
      let last = turned n (omega arith) in
      let e : len - 1 - n ≡ len - suc n = omega arith in
      let e' : p + (len - suc n) + 1 ≡ p + (len - n) = omega arith in
      rw (e', ih, last, e) (grind arith)

-- The digits that `put_digits` leaves, 1 to 64 of them.
put_digits-Digits :
    (value buffer radix : ℕ) (m : Memory)
    → 2 ≤ radix
    → radix ≤ 36
    → value < 2 ^ 64
    → (g : Memory) × (n : ℕ) × (put_digits value buffer radix m ≡ some (g, n))
      × Digits radix value buffer 0 m g n
      × (1 ≤ n)
      × (n ≤ 64)
unfolding put_digits
put_digits-Digits value buffer radix m low high small = elim (Bool-cases (value == 0)) [
  | inl none' ↦
      let e : value ≡ 0 = ground (arith, none') in
      (
        write buffer b'0' m,
        1,
        rw none' refl,
        rw e (zero_digit radix buffer m low),
        omega arith,
        omega arith,
      )
  | inr more ↦
      let (g, n, e, d, short) = digits_loop-Digits buffer radix low high 64 value 0 m small in
      let many = some-Digits radix value buffer m g n d (ground (arith, more)) in
      (g, n, rw more e, d, many, short)
]

-- A text of a length that reads as a value, with the rest of the memory as it was.
pub record Prints (radix value p n : ℕ) (m m' : Memory) : Type 0 where
  pub text : IsString m' p n
  pub digits : (k : ℕ) → k < n → IsDigit radix (m' (p + k))
  pub reads : read radix m' p n ≡ value
  pub before : (x : ℕ) → x < p → m' x ≡ m x
  pub behind : (k : ℕ) → n < k → m' (p + k) ≡ m (p + k)

pub write_other : (a v : ℕ) (m : Memory) (x : ℕ) → x ≢ a → write a v m x ≡ m x
unfolding write
write_other a v m x h = ground (arith, h)

-- The end of both functions, behind a buffer of visible characters
module _ (buffer n : ℕ) (g : Memory) (short : n ≤ 65)
    (visible : (k : ℕ) → k < n → g (buffer + k) ≢ 0) where
  ended-IsString : IsString (write (buffer + n) 0 g) buffer n
  unfolding write
  ended-IsString = record {
    end = ground arith;
    chars = λ i h. ground (arith, h, visible i h);
    fits = omega (arith, short);
  }

  finish-Reversed :
      (m' : Memory) × (finish buffer (g, n) ≡ some m')
      × Reversed (write (buffer + n) 0 g) m' buffer n
      × IsString m' buffer n
  unfolding finish
  finish-Reversed =
      let (m', e, r) = reverse-Reversed (write (buffer + n) 0 g) buffer n ended-IsString in
      (
        m',
        e,
        r,
        record {
          end = r.behind n (omega arith) ∙ ended-IsString.end;
          chars =
              λ i h z. ended-IsString.chars (n - 1 - i) (omega (arith, h)) (sym (r.turned i h) ∙ z);
          fits = omega (arith, short);
        },
      )

shown_turned :
    (radix value buffer q n : ℕ) (m g h m' : Memory)
    → Digits radix value buffer 0 m g n
    → ((k : ℕ) → k < n → h (buffer + k) ≡ g (buffer + k))
    → ((k : ℕ) → k < n → m' (q + k) ≡ h (buffer + (n - 1 - k)))
    → (k : ℕ) → k < n
    → IsDigit radix (m' (q + k))
shown_turned radix value buffer q n m g h m' d same turned k a =
    let (c, e, small) = d.shown (n - 1 - k) (omega arith) (omega arith) in
    (c, turned k a ∙ same (n - 1 - k) (omega arith) ∙ e, small)

-- What stands in the buffer is the reverse of the digits.
read-Digits :
    (radix value buffer q n : ℕ) (m g h m' : Memory)
    → Digits radix value buffer 0 m g n
    → ((k : ℕ) → k < n → h (buffer + k) ≡ g (buffer + k))
    → ((k : ℕ) → k < n → m' (q + k) ≡ h (buffer + (n - 1 - k)))
    → read radix m' q n ≡ value
read-Digits radix value buffer q n m g h m' d same turned =
    let e : buffer + (n - n) ≡ buffer + 0 = omega arith in
    let e' : n - 0 ≡ n = omega arith in
    read-turned radix h m' buffer q n turned n (omega arith)
    ∙ rw (e, add-zero) (read_reversed_same radix g h buffer n same ∙ rw (add-zero, e') at d.reads)

-- A number that `uitoa` prints reads back as itself: the call ends, and leaves in the buffer a string
-- of 1 to 64 digits of the radix that stands for the value. No byte before the buffer or behind
-- the string's end changes. It asks for a buffer that is not null, a radix from 2 to 36, and a value
-- below 2 ^ 64.
pub uitoa-Prints :
    (value buffer radix : ℕ) (m : Memory)
    → buffer ≢ 0
    → 2 ≤ radix
    → radix ≤ 36
    → value < 2 ^ 64
    → (m' : Memory) × (n : ℕ) × (uitoa value buffer radix m ≡ some m')
      × Prints radix value buffer n m m'
      × (1 ≤ n)
      × (n ≤ 64)
unfolding uitoa
uitoa-Prints value buffer radix m at low high small =
    let (g, n, e, d, some', short) = put_digits-Digits value buffer radix m low high small in
    let (m', e', r, t) =
      finish-Reversed buffer n g (omega (arith, short)) (λ k h. d.visible k (omega arith) h) in
    let h : Memory = write (buffer + n) 0 g in
    (
      m',
      n,
      ground (arith, at, low, high, e, e'),
      record {
        text = t;
        digits =
            shown_turned radix value buffer buffer n m g h m' d
              (λ k a. write_other _ _ g _ (omega (arith, a))) r.turned;
        reads =
            read-Digits radix value buffer buffer n m g h m' d
              (λ k a. write_other _ _ g _ (omega (arith, a))) r.turned;
        before = λ x a.
            r.before x a ∙ write_other _ _ g x (omega (arith, a)) ∙ d.below x (omega (arith, a));
        behind = λ k a.
            r.behind k (omega (arith, a))
            ∙ write_other _ _ g _ (omega (arith, a))
            ∙ d.above k (omega (arith, a));
      },
      some',
      short,
    )

-- The sign behind the digits
signed_visible :
    (buffer n : ℕ) (g : Memory)
    → ((k : ℕ) → k < n → g (buffer + k) ≢ 0)
    → (k : ℕ) → k < n + 1
    → write (buffer + n) b'-' g (buffer + k) ≢ 0
unfolding write
signed_visible buffer n g visible k h z = elim (Bool-cases (k == n)) [
  | inl last ↦ absurd (ground (arith, z, last))
  | inr other ↦ visible k (ground (arith, h, other)) (ground (arith, z, other))
]

sign_first :
    (buffer n : ℕ) (g m' : Memory)
    → m' (buffer + 0)
      ≡ write (buffer + (n + 1)) 0 (write (buffer + n) b'-' g) (buffer + (n + 1 - 1 - 0))
    → m' buffer ≡ b'-'
unfolding write
sign_first buffer n g m' e =
    let e' : n + 1 - 1 - 0 ≡ n = omega arith in rw (add-zero, e') at e ∙ ground arith

-- `itoa` prints a value from 0 up as `uitoa` does, and one below 0, from -2 ^ 63 + 1 on, as a minus
-- sign and behind it the 1 to 64 digits of its opposite. It ends, and no byte before the buffer or behind
-- the string's end changes. It asks for a buffer that is not null and a radix from 2 to 36.
pub itoa-Prints :
    (value buffer radix : ℕ) (m : Memory)
    → buffer ≢ 0
    → 2 ≤ radix
    → radix ≤ 36
    → value + 1 < 2 ^ 63
    → (itoa (pos value) buffer radix m ≡ uitoa value buffer radix m)
      × (m' : Memory) × (n : ℕ) × (itoa (negsuc value) buffer radix m ≡ some m')
      × IsString m' buffer (n + 1)
      × (m' buffer ≡ b'-')
      × ((k : ℕ) → k < n → IsDigit radix (m' (buffer + 1 + k)))
      × (read radix m' (buffer + 1) n ≡ value + 1)
      × (1 ≤ n)
      × (n ≤ 64)
      × ((x : ℕ) → x < buffer → m' x ≡ m x)
      × ((k : ℕ) → n + 1 < k → m' (buffer + k) ≡ m (buffer + k))
unfolding itoa uitoa put_sign
itoa-Prints value buffer radix m at low high small =
    let (g, n, e, d, some', short) =
      put_digits-Digits (value + 1) buffer radix m low high (omega (arith, small)) in
    let g' : Memory = write (buffer + n) b'-' g in
    let h : Memory = write (buffer + (n + 1)) 0 g' in
    let (m', e', r, t) =
      finish-Reversed buffer (n + 1) g' (omega (arith, short))
        (signed_visible buffer n g (λ k a. d.visible k (omega arith) a)) in
    let same : (k : ℕ) → k < n → h (buffer + k) ≡ g (buffer + k) =
      λ k a. write_other _ _ g' _ (omega (arith, a)) ∙ write_other _ _ g _ (omega (arith, a)) in
    let turned : (k : ℕ) → k < n → m' (buffer + 1 + k) ≡ h (buffer + (n - 1 - k)) = λ k a.
      let e1 : buffer + 1 + k ≡ buffer + (k + 1) = omega arith in
      let e2 : n - 1 - k ≡ n + 1 - 1 - (k + 1) = omega arith in
      rw (e1, e2) (r.turned (k + 1) (omega (arith, a))) in
    (
      ground (arith, at, low, high),
      m',
      n,
      ground (arith, at, low, high, small, e, e'),
      t,
      sign_first buffer n g m' (r.turned 0 (omega arith)),
      shown_turned radix (value + 1) buffer (buffer + 1) n m g h m' d same turned,
      read-Digits radix (value + 1) buffer (buffer + 1) n m g h m' d same turned,
      some',
      short,
      λ x a.
          r.before x a
          ∙ write_other _ _ g' x (omega (arith, a))
          ∙ write_other _ _ g x (omega (arith, a))
          ∙ d.below x (omega (arith, a)),
      λ k a.
          r.behind k (omega (arith, a))
          ∙ write_other _ _ g' _ (omega (arith, a))
          ∙ write_other _ _ g _ (omega (arith, a))
          ∙ d.above k (omega (arith, a)),
    )
