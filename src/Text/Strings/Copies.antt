-- ===== src/Text/Strings/Copies.antt =====
-- What `memmove` copies, and when `memcpy` does the same.
use stable_genius.Common.{
  ℕ, zero, suc, ◌+◌, ◌-◌, ◌≤◌, ◌<◌, ◌≡◌, ◌≢◌, ◌⊎◌, ◌&&◌, ltb, leb, if◌then◌else◌, arith, Bool-cases,
  inl, inr,
}
use stable_genius.Text.{Memory, write}
use stable_genius.Text.Strings.{copy_loop, memcpy, take_bytes, put_bytes, memmove}

-- The memory in which `count` bytes of `src` have been copied to `dest`.
unfoldable pub copied : (dest src count : ℕ) → Memory → Memory
copied dest src count m x = if leb dest x && ltb x (dest + count) then m (src + (x - dest)) else m x

put_bytes-take_bytes :
    (n dest src : ℕ) (m g : Memory) (x : ℕ)
    → put_bytes dest (take_bytes n src m) g x
      ≡ (if leb dest x && ltb x (dest + n) then m (src + (x - dest)) else g x)
unfolding put_bytes take_bytes write
put_bytes-take_bytes zero dest src m g x = ground arith
put_bytes-take_bytes (suc n) dest src m g x =
    let ih = put_bytes-take_bytes n (dest + 1) (src + 1) m (write dest (m src) g) x in
    elim (Bool-cases (ltb dest x)) [
      | inl above ↦
          let e : src + 1 + (x - (dest + 1)) ≡ src + (x - dest) = ground (arith, above) in
          ground (arith, ih, above, e)
      | inr below ↦
          let e : src + (x - dest) ≡ src = ground (arith, below) in ground (arith, ih, below, e)
    ]

copy_loop-copied :
    (n dest src i : ℕ) (m : Memory) (x : ℕ)
    → (dest ≤ src) ⊎ (src + (i + n) ≤ dest)
    → copy_loop n dest src i m x
      ≡ (if leb (dest + i) x && ltb x (dest + i + n) then m (src + (x - dest)) else m x)
unfolding copy_loop write
copy_loop-copied zero dest src i m x h = ground arith
copy_loop-copied (suc n) dest src i m x h =
    let m' = write (dest + i) (m (src + i)) m in
    let ih = copy_loop-copied n dest src (i + 1) m' x (ground (arith, h)) in
    let apart : dest + i < x → x < dest + i + suc n → src + (x - dest) ≢ dest + i =
      λ a b e. ground (arith, h, a, b, e) in
    elim (Bool-cases (ltb (dest + i) x)) [
      | inl above ↦ elim (Bool-cases (ltb x (dest + i + suc n))) [
        | inl inside ↦
            let e = apart (ground (arith, above)) (ground (arith, inside)) in
            ground (arith, ih, above, inside, e)
        | inr outside ↦ ground (arith, ih, above, outside)
      ]
      | inr below ↦
          let e : x ≡ dest + i → src + (x - dest) ≡ src + i = λ a. omega (arith, a) in
          ground (arith, ih, below, e)
    ]

-- `memmove` copies: afterwards the bytes of `dest` are those that stood at `src` before, whether the
-- two overlap or not, and all others stay; the result is `dest`. `memcpy` leaves the same memory
-- if `dest` does not lie within the bytes behind `src`. Neither pointer may be null.
pub memmove-memcpy :
    (dest src count : ℕ) (m : Memory) (x : ℕ)
    → dest ≢ 0
    → src ≢ 0
    → ((memmove dest src count m).1 ≡ dest)
      × ((memmove dest src count m).0 x ≡ copied dest src count m x)
      × ((dest ≤ src) ⊎ (src + count ≤ dest)
          → (memcpy dest src count m).0 x ≡ (memmove dest src count m).0 x)
unfolding memmove memcpy copied
memmove-memcpy dest src count m x d s =
    let moved = put_bytes-take_bytes count dest src m m x in
    (
      ground (arith, d, s),
      ground (arith, d, s, moved),
      λ h.
          let e : dest + 0 ≡ dest = omega arith in
          let copy = copy_loop-copied count dest src 0 m x (ground (arith, h)) in
          ground (arith, d, s, moved, rw e at copy),
    )
