-- ===== src/Prelude/Words.antt =====
-- The 32-bit words of the machine as native numbers below 2 ^ 32. An `int` is kept as its bit
-- pattern (two's complement), so `--` and `++` wrap as the compiled code does.
use pand_aossh.Prelude.Tests.{ltb, leb}
use Prim.Native.Nat.{ℕ, ◌+◌, ◌-◌, ◌%◌, ◌^◌}
use mathlib.Core.Bool.{Bool}

abbrev pub word_mod : ℕ
word_mod = 2 ^ 32

abbrev pub add32 : ℕ → ℕ → ℕ
add32 a b = (a + b) % word_mod

abbrev pub sub32 : ℕ → ℕ → ℕ
sub32 a b = (a + word_mod - b) % word_mod

-- x++ and x--.
abbrev pub inc32 : ℕ → ℕ
inc32 a = (a + 1) % word_mod

abbrev pub dec32 : ℕ → ℕ
dec32 a = (a + (word_mod - 1)) % word_mod

-- The bit pattern of the int -n.
abbrev pub minus : ℕ → ℕ
minus n = (word_mod - n) % word_mod

-- (int) a < 0.
abbrev pub is_neg : ℕ → Bool
is_neg a = leb (2 ^ 31) a

-- (int) a < (int) b: the sign bit is flipped, then the words are compared as naturals.
abbrev pub bias : ℕ → ℕ
bias a = (a + 2 ^ 31) % word_mod

abbrev pub slt : ℕ → ℕ → Bool
slt a b = ltb (bias a) (bias b)
