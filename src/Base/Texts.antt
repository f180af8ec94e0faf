-- ===== src/Base/Texts.antt =====
-- How long a part of a text is.
use Prim.Native.Nat.{ℕ, zero, ◌-◌, ◌≤◌, Ordering, compare}
use Prim.Native.Char.{Char, len_utf8}
use Prim.Native.String.{String, [], ◌∷◌, len, slice, fits}
use Prim.Native.String.len
use Prim.Native.String.slice
use mathlib.Core.Path.{◌≡◌, refl}
use native.Mathlib.Omega.{arith}

len-fits-le :
    (c : Char) (t : String) (b : ℕ) (o : Ordering)
    → compare (len_utf8 c) b ≡ o
    → len t ≤ b - len_utf8 c
    → len (fits o c t) ≤ b
len-fits-le c t b Ordering.lt e h = rw (len.cons c t) (ground arith)
len-fits-le c t b Ordering.eq e h = rw (len.cons c t) (ground arith)
len-fits-le c t b Ordering.gt e h = rw len.nil (omega arith)

pub len-slice-le : (s : String) (b : ℕ) → len (slice s zero b) ≤ b
len-slice-le [] b = rw (slice.nil zero b, len.nil) (omega arith)
len-slice-le (c ∷ s) b = rw (slice.cons-zero c s b) (
    len-fits-le c (slice s zero (b - len_utf8 c)) b (compare (len_utf8 c) b) refl
      (len-slice-le s (b - len_utf8 c)))
