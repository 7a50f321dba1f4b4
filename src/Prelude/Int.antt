-- ===== src/Prelude/Int.antt =====
-- Signed integers over the native numbers, under the library's names, and the wrap-around of Go's
-- int64. Sums and orders go through the two parts of an integer, which are numbers.
use pouch.Prelude.{
  ℕ, suc, ◌+◌, ◌-◌, ◌%◌, ◌≤◌, ◌<◌, ◌≡◌, Bool, arith, false, ◌&&◌, ltb, leb, if◌then◌else◌,
}

-- `negsuc n` is -(n + 1).
pub data ℤ : Type 0 where
  pos : ℕ → ℤ
  negsuc : ℕ → ℤ

abbrev pub pos_part : ℤ → ℕ
pos_part (pos n) = n
pos_part (negsuc n) = 0

abbrev pub neg_part : ℤ → ℕ
neg_part (pos n) = 0
neg_part (negsuc n) = suc n

-- a - b, as an integer.
abbrev pub sub_ℕ : ℕ → ℕ → ℤ
sub_ℕ a b = if leb b a then pos (a - b) else negsuc (b - a - 1)

infixl 65 ◌+ℤ◌ ◌-ℤ◌
infix 50 ◌≤ℤ◌
unfoldable pub ◌+ℤ◌ : ℤ → ℤ → ℤ
a +ℤ b = sub_ℕ (pos_part a + pos_part b) (neg_part a + neg_part b)

unfoldable pub ◌-ℤ◌ : ℤ → ℤ → ℤ
a -ℤ b = sub_ℕ (pos_part a + neg_part b) (neg_part a + pos_part b)

abbrev pub ◌≤ℤ◌ : ℤ → ℤ → Type 0
a ≤ℤ b = pos_part a + neg_part b ≤ pos_part b + neg_part a

abbrev pub ltb_ℤ : ℤ → ℤ → Bool
ltb_ℤ a b = ltb (pos_part a + neg_part b) (pos_part b + neg_part a)

abbrev pub eq_ℤ : ℤ → ℤ → Bool
eq_ℤ (pos a) (pos b) = leb a b && leb b a
eq_ℤ (negsuc a) (negsuc b) = leb a b && leb b a
eq_ℤ (pos _) (negsuc _) = false
eq_ℤ (negsuc _) (pos _) = false

abbrev pub two_63 : ℕ
two_63 = 0x8000_0000_0000_0000

abbrev pub two_64 : ℕ
two_64 = 0x1_0000_0000_0000_0000

-- the value that an int64 with these low 64 bits stands for
unfoldable pub signed64 : ℕ → ℤ
signed64 u = if ltb u two_63 then pos u else negsuc (two_64 - u - 1)

-- the conversion to int64, which sums and differences end with
unfoldable pub int64 : ℤ → ℤ
unfolding signed64
int64 z = signed64 ((pos_part z % two_64 + two_64 - neg_part z % two_64) % two_64)

abbrev pub two_32 : ℕ
two_32 = 0x1_0000_0000

-- the conversion to uint32
unfoldable pub uint32 : ℤ → ℕ
uint32 (pos n) = n % two_32
uint32 (negsuc n) = two_32 - 1 - n % two_32

pub uint32-Below : (z : ℤ) → uint32 z < two_32
unfolding uint32
uint32-Below (pos n) = omega arith
uint32-Below (negsuc n) = omega arith

pub int64-eq_of_range : (z : ℤ) → pos_part z < two_63 → neg_part z ≤ two_63 → int64 z ≡ z
unfolding int64
int64-eq_of_range (pos n) h k = ground arith
int64-eq_of_range (negsuc n) h k = ground arith
