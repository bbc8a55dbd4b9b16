-- ===== src/Prelude/Int.antt =====
-- Signed integers over the native numbers, under the library's names.
use Prim.Native.Nat.{ℕ, ◌+◌, ◌-◌, ◌%◌, ◌<◌}
use mathlib.Core.Path.{◌≡◌, refl, ap}
use mathlib.Core.Bool.{Bool, true, false}
use native.Mathlib.Omega.{arith}
use mixlab.Prelude.Tests.{ltb, leb, if◌then◌else◌}

-- `negsuc n` is -(n + 1).
pub data ℤ : Type 0 where
  pos : ℕ → ℤ
  negsuc : ℕ → ℤ

-- a - b
unfoldable pub difference : ℕ → ℕ → ℤ
difference a b = if leb b a then pos (a - b) else negsuc (b - a - 1)

infixl 60 ◌+ℤ◌ ◌-ℤ◌
unfoldable pub ◌+ℤ◌ : ℤ → ℤ → ℤ
unfolding difference
pos a +ℤ pos b = pos (a + b)
pos a +ℤ negsuc b = difference a (b + 1)
negsuc a +ℤ pos b = difference b (a + 1)
negsuc a +ℤ negsuc b = negsuc (a + b + 1)

unfoldable pub ◌-ℤ◌ : ℤ → ℤ → ℤ
unfolding difference
pos a -ℤ pos b = difference a b
pos a -ℤ negsuc b = pos (a + b + 1)
negsuc a -ℤ pos b = negsuc (a + b)
negsuc a -ℤ negsuc b = difference b a

unfoldable pub ltℤ : ℤ → ℤ → Bool
ltℤ (pos a) (pos b) = ltb a b
ltℤ (pos a) (negsuc b) = false
ltℤ (negsuc a) (pos b) = true
ltℤ (negsuc a) (negsuc b) = ltb b a

-- `as u32`: the word keeps the low bits.
unfoldable pub as_u32 : ℤ → ℕ
as_u32 (pos n) = n % 4294967296
as_u32 (negsuc n) = 4294967295 - n % 4294967296

-- `as i32`
unfoldable pub as_i32 : ℤ → ℤ
as_i32 a =
    let word : ℕ = as_u32 a in if ltb word 2147483648 then pos word else negsuc (4294967295 - word)

pub add-sub : (a b : ℤ) → b +ℤ (a -ℤ b) ≡ a
unfolding ◌+ℤ◌ ◌-ℤ◌ difference
add-sub (pos a) (pos b) = ground arith
add-sub (pos a) (negsuc b) = ground arith
add-sub (negsuc a) (pos b) = ground arith
add-sub (negsuc a) (negsuc b) = ground arith

-- The words of a start and of a length add up to the word of the end.
pub as_u32-sub : (a b : ℤ) → (as_u32 b + as_u32 (a -ℤ b)) % 4294967296 ≡ as_u32 a
unfolding ◌-ℤ◌ difference as_u32
as_u32-sub (pos a) (pos b) = ground arith
as_u32-sub (pos a) (negsuc b) = ground arith
as_u32-sub (negsuc a) (pos b) = ground arith
as_u32-sub (negsuc a) (negsuc b) = ground arith

pub as_u32_lt : (a : ℤ) → as_u32 a < 4294967296
unfolding as_u32
as_u32_lt (pos a) = omega arith
as_u32_lt (negsuc a) = omega arith

pub ltℤ_asym : (a b : ℤ) → ltℤ a b ≡ true → ltℤ b a ≡ false
unfolding ltℤ
ltℤ_asym (pos a) (pos b) h = ground arith
ltℤ_asym (pos a) (negsuc b) h = cc
ltℤ_asym (negsuc a) (pos b) h = refl
ltℤ_asym (negsuc a) (negsuc b) h = ground arith

pub ltℤ_antisym : (a b : ℤ) → ltℤ a b ≡ false → ltℤ b a ≡ false → a ≡ b
unfolding ltℤ
ltℤ_antisym (pos a) (pos b) h k = ap pos (ground arith)
ltℤ_antisym (pos a) (negsuc b) h k = cc
ltℤ_antisym (negsuc a) (pos b) h k = cc
ltℤ_antisym (negsuc a) (negsuc b) h k = ap negsuc (ground arith)
