-- ===== src/Prelude/Int.antt =====
-- The integers, and Go's `int64` as an integer that wraps around.
use Prim.Native.Nat.{ℕ, suc, ◌+◌, ◌-◌, ◌*◌, ◌%◌, ◌^◌, ◌≤◌, ◌<◌}
use mathlib.Core.Path.{◌≡◌}
use mathlib.Core.Bool.{Bool, true, false}
use native.Mathlib.Omega.{arith}
use package.fssvrgo.Prelude.Tests.{ltb, leb, ◌==◌, if◌then◌else◌}

-- `negsuc n` is -(n + 1).
pub data ℤ : Type 0 where
  pos : ℕ → ℤ
  negsuc : ℕ → ℤ

abbrev pub pos_part : ℤ → ℕ
pos_part (pos n) = n
pos_part (negsuc n) = 0

abbrev pub neg_part : ℤ → ℕ
neg_part (pos n) = 0
neg_part (negsuc n) = suc n

infix 50 ◌≤ℤ◌ ◌<ℤ◌
abbrev pub ◌≤ℤ◌ : ℤ → ℤ → Type 0
a ≤ℤ b = pos_part a + neg_part b ≤ pos_part b + neg_part a

abbrev pub ◌<ℤ◌ : ℤ → ℤ → Type 0
a <ℤ b = pos_part a + neg_part b < pos_part b + neg_part a

-- a < b, a <= b, a == b on int64
abbrev pub ltbℤ : ℤ → ℤ → Bool
ltbℤ a b = ltb (pos_part a + neg_part b) (pos_part b + neg_part a)

abbrev pub lebℤ : ℤ → ℤ → Bool
lebℤ a b = leb (pos_part a + neg_part b) (pos_part b + neg_part a)

abbrev pub eqbℤ : ℤ → ℤ → Bool
eqbℤ (pos a) (pos b) = a == b
eqbℤ (negsuc a) (negsuc b) = a == b
eqbℤ _ _ = false

abbrev pub int64_mod : ℕ
int64_mod = 2 ^ 64

abbrev pub int64_half : ℕ
int64_half = 2 ^ 63

-- The bit pattern of an int64, and the int64 of a bit pattern.
abbrev pub to_bits : ℤ → ℕ
to_bits (pos n) = n % int64_mod
to_bits (negsuc n) = int64_mod - 1 - n % int64_mod

abbrev pub of_bits : ℕ → ℤ
of_bits n = if ltb n int64_half then pos n else negsuc (int64_mod - 1 - n)

-- a + b on int64
unfoldable pub add64 : ℤ → ℤ → ℤ
add64 a b = of_bits ((to_bits a + to_bits b) % int64_mod)

-- a * b on int64, of a number and a positive constant
unfoldable pub mul64 : ℕ → ℕ → ℤ
mul64 a b = of_bits ((a * b) % int64_mod)

-- The sum without a bound, as time.Time's Add has it
abbrev pub add_to : ℕ → ℤ → ℤ
add_to a (pos b) = pos (a + b)
add_to a (negsuc b) = if leb (suc b) a then pos (a - suc b) else negsuc (b - a)

pub add64_small : (a b : ℕ) → a + b < int64_half → add64 (pos a) (pos b) ≡ pos (a + b)
unfolding add64
add64_small a b h = ground arith

pub add64_pred : (n : ℕ) → n < int64_half - 1 → add64 (pos (n + 1)) (negsuc 0) ≡ pos n
unfolding add64
add64_pred n h = ground arith

-- A sum that passes the largest int64 comes out negative.
pub add64_overflow :
    (a b : ℕ)
    → a < int64_half
    → b < int64_half
    → int64_half ≤ a + b
    → add64 (pos a) (pos b) ≡ negsuc (int64_mod - 1 - (a + b))
unfolding add64
add64_overflow a b ha hb h = ground arith

pub ltbℤ→lt : (a b : ℤ) → ltbℤ a b ≡ true → a <ℤ b
ltbℤ→lt a b h = ground arith

pub eqbℤ→eq : (a b : ℤ) → eqbℤ a b ≡ true → a ≡ b
eqbℤ→eq (pos a) (pos b) h = ground arith
eqbℤ→eq (negsuc a) (negsuc b) h = ground arith
eqbℤ→eq (pos a) (negsuc b) h = cc
eqbℤ→eq (negsuc a) (pos b) h = cc

pub eqbℤ_self : (a : ℤ) → eqbℤ a a ≡ true
eqbℤ_self (pos a) = ground arith
eqbℤ_self (negsuc a) = ground arith
