-- ===== src/Base/Word.antt =====
-- Go's int64 (and int, which has 64 bits on the supported platforms) as its bit pattern below
-- 2 ^ 64, in two's complement. Every operation writes its wrap-around out.
use Prim.Native.Nat.{ℕ, ◌+◌, ◌-◌, ◌%◌, ◌^◌, ◌<◌}
use mathlib.Core.Path.{◌≡◌}
use mathlib.Core.Bool.{Bool}
use native.Mathlib.Omega.{arith}
use tokenomics.Base.Tests.{ltb, leb, if◌then◌else◌}
use tokenomics.Base.Int.{ℤ, pos, negsuc}

abbrev pub Int64 : Type 0
Int64 = ℕ

abbrev pub word_mod : ℕ
word_mod = 2 ^ 64

abbrev pub half_mod : ℕ
half_mod = 2 ^ 63

-- The bit pattern is one: it has 64 bits.
abbrev pub IsWord : Int64 → Type 0
IsWord a = a < word_mod

-- The pattern of a number that is not negative.
abbrev pub IsNonneg : Int64 → Type 0
IsNonneg a = a < half_mod

unfoldable pub add64 : Int64 → Int64 → Int64
add64 a b = (a + b) % word_mod

unfoldable pub neg64 : Int64 → Int64
neg64 a = (word_mod - a % word_mod) % word_mod

-- The signed order is the order of the patterns moved by half the modulus.
abbrev pub bias : Int64 → ℕ
bias a = (a + half_mod) % word_mod

unfoldable pub lt64 : Int64 → Int64 → Bool
lt64 a b = ltb (bias a) (bias b)

unfoldable pub le64 : Int64 → Int64 → Bool
le64 a b = leb (bias a) (bias b)

-- The number that a pattern stands for.
unfoldable pub signed : Int64 → ℤ
signed a = if ltb a half_mod then pos a else negsuc (word_mod - a - 1)

pub add64_comm : (a b : Int64) → add64 a b ≡ add64 b a
unfolding add64
add64_comm a b = omega arith

pub add64_assoc : (a b c : Int64) → add64 (add64 a b) c ≡ add64 a (add64 b c)
unfolding add64
add64_assoc a b c = omega arith

pub add64-zero : (a : Int64) → IsWord a → add64 a 0 ≡ a
unfolding add64
add64-zero a h = omega arith

pub add64-IsWord : (a b : Int64) → IsWord (add64 a b)
unfolding add64
add64-IsWord a b = omega arith

-- Giving back what was taken restores the value, wherever the sum wrapped.
pub add64-neg64 : (a b : Int64) → IsWord a → IsWord b → add64 (add64 a b) (neg64 b) ≡ a
unfolding add64 neg64
add64-neg64 a b ha hb = omega arith

pub add64_exact : (a b : Int64) → a + b < word_mod → add64 a b ≡ a + b
unfolding add64
add64_exact a b h = omega arith

pub lt64_nonneg : (a b : Int64) → IsNonneg a → IsNonneg b → lt64 a b ≡ ltb a b
unfolding lt64
lt64_nonneg a b ha hb = ground arith

pub le64_nonneg : (a b : Int64) → IsNonneg a → IsNonneg b → le64 a b ≡ leb a b
unfolding le64
le64_nonneg a b ha hb = ground arith
