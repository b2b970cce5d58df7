-- ===== src/Text.antt =====
-- Text in memory: stdlib/cpp/cstring.cpp, the conversions of stdlib/cpp/cstdlib.cpp and the
-- formatting of kernel/cpp/no_heap_util.cpp.
-- The memory is the function from addresses to bytes; a string ends at its first byte 0.
pub mod Strings
pub mod Numbers
pub mod Kprintf
pub mod Errors
pub mod Parse
use stable_genius.Common.{ℕ, ◌+◌, ◌^◌, ◌<◌, ◌≡◌, ◌≢◌, Option, ◌==◌, if◌then◌else◌, first_from}

abbrev pub Memory : Type 0
Memory = ℕ → ℕ

unfoldable pub write : ℕ → ℕ → Memory → Memory
write a v m x = if x == a then v else m x

-- `strlen`: a string that wraps round the memory has no end, as `none` says.
unfoldable pub strlen : Memory → ℕ → Option ℕ
strlen m str = first_from (λ len. m (str + len) == 0) (2 ^ 32) 0

-- A string of a length lies at an address.
pub record IsString (m : Memory) (str len : ℕ) : Type 0 where
  pub end : m (str + len) ≡ 0
  pub chars : (i : ℕ) → i < len → m (str + i) ≢ 0
  pub fits : len < 2 ^ 32
