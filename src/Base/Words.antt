-- ===== src/Base/Words.antt =====
-- Machine words of the target (64-bit Linux, where `unsigned long` has 64 bits), and `int`.
use Prim.Native.Nat.{ℕ, ◌+◌, ◌-◌, ◌%◌, ◌^◌, ◌<◌}
use mathlib.Core.Path.{◌≡◌}
use native.Mathlib.Omega.{arith}
use mathlib.Core.Bool.{Bool, false}
use ugly_ff.Base.Tests.{ltb, lt→ltb, ◌==◌, if◌then◌else◌}

-- DWORD, QWORD and size_t are unsigned 64-bit words.
abbrev pub add64 : ℕ → ℕ → ℕ
add64 a b = (a + b) % 2 ^ 64

abbrev pub sub64 : ℕ → ℕ → ℕ
sub64 a b = (a + 2 ^ 64 - b) % 2 ^ 64

-- WORD is an unsigned 16-bit word.
abbrev pub to_word : ℕ → ℕ
to_word a = a % 2 ^ 16

-- `negsuc n` is -(n + 1).
pub data ℤ : Type 0 where
  pos : ℕ → ℤ
  negsuc : ℕ → ℤ

-- The `-1` by which the system calls and the framework report a failure.
abbrev pub minus_one : ℤ
minus_one = negsuc 0

unfoldable pub is_minus_one : ℤ → Bool
is_minus_one (pos n) = false
is_minus_one (negsuc n) = n == 0

-- A DWORD converted to `int`: its low 32 bits in two's complement.
unfoldable pub to_int : ℕ → ℤ
to_int a = if ltb (a % 2 ^ 32) (2 ^ 31) then pos (a % 2 ^ 32) else negsuc (2 ^ 32 - a % 2 ^ 32 - 1)

pub to_int-small : (a : ℕ) → a < 2 ^ 31 → to_int a ≡ pos a
unfolding to_int
to_int-small a h = let low : a % 2 ^ 32 ≡ a = omega arith in rw (low, lt→ltb a (2 ^ 31) h)
