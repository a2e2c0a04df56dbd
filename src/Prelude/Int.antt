-- ===== src/Prelude/Int.antt =====
-- Signed integers over the native numbers, and their conversion to `size_t`.
use Prim.Native.Nat.{ℕ, suc, ◌+◌, ◌-◌, ◌*◌, ◌/◌, ◌%◌, ◌^◌, ◌≤◌, ◌<◌}
use mathlib.Core.Path.{◌≡◌}
use native.Mathlib.Omega.{arith}
use zerver.Prelude.Tests.{leb, ltb, if◌then◌else◌}

-- `negsuc n` is -(n + 1).
pub data ℤ : Type 0 where
  pos : ℕ → ℤ
  negsuc : ℕ → ℤ

-- The conversion of an `int` to a 64-bit `size_t`: modulo 2^64.
abbrev pub to_size : ℤ → ℕ
to_size (pos n) = n % 2 ^ 64
to_size (negsuc n) = 2 ^ 64 - 1 - n % 2 ^ 64

abbrev pub pos_part : ℤ → ℕ
pos_part (pos n) = n
pos_part (negsuc n) = 0

abbrev pub neg_part : ℤ → ℕ
neg_part (pos n) = 0
neg_part (negsuc n) = suc n

-- a - b, as an integer.
unfoldable pub sub_ℕ : ℕ → ℕ → ℤ
sub_ℕ a b = if leb b a then pos (a - b) else negsuc (b - a - 1)

infixl 65 ◌+ℤ◌
unfoldable pub ◌+ℤ◌ : ℤ → ℤ → ℤ
unfolding sub_ℕ
a +ℤ b = sub_ℕ (pos_part a + pos_part b) (neg_part a + neg_part b)

unfoldable pub scale : ℕ → ℤ → ℤ
unfolding sub_ℕ
scale k a = sub_ℕ (k * pos_part a) (k * neg_part a)

-- The division of C, which rounds towards 0.
unfoldable pub quot : ℤ → ℕ → ℤ
unfolding sub_ℕ
quot a k = sub_ℕ (pos_part a / k) (neg_part a / k)

-- The conversion of a 64-bit integer to an `int`: modulo 2^32, from -2^31 on.
unfoldable pub to_int : ℤ → ℤ
to_int a =
    let bits = (pos_part a + (2 ^ 64 - neg_part a)) % 2 ^ 32 in
    if ltb bits (2 ^ 31) then pos bits else negsuc (2 ^ 32 - 1 - bits)

pub sub_ℕ_parts : (a b : ℕ) → (pos_part (sub_ℕ a b) ≡ a - b) × (neg_part (sub_ℕ a b) ≡ b - a)
unfolding sub_ℕ
sub_ℕ_parts a b = ground arith

pub sub_ℕ-pos : (a b : ℕ) → b ≤ a → sub_ℕ a b ≡ pos (a - b)
unfolding sub_ℕ
sub_ℕ-pos a b h = ground arith

pub to_int-pos : (n : ℕ) → n < 2 ^ 31 → to_int (pos n) ≡ pos n
unfolding to_int
to_int-pos n h = let e : (n + (2 ^ 64 - 0)) % 2 ^ 32 ≡ n = omega arith in rw e (ground arith)
