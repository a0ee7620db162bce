-- ===== src/Prelude/Int.antt =====
-- Go's int32: an integer in the range -2^31 .. 2^31 - 1, with wrap-around written out. The
-- comparisons go through the two parts of an integer, which are numbers that `omega` reads.
use selected_course_projects.Prelude.{
  ℕ, suc, ◌+◌, ◌-◌, ◌≤◌, ◌<◌, ◌≡◌, ◌↔◌, Bool, true, arith, ltb, leb, ◌==◌, if◌then◌else◌, Eq,
}

-- `negsuc n` is -(n + 1).
pub data ℤ : Type 0 where
  pos : ℕ → ℤ
  negsuc : ℕ → ℤ

abbrev pub pos_part : ℤ → ℕ
pos_part (pos n) = n
pos_part (negsuc n) = 0

abbrev pub neg_part : ℤ → ℕ
neg_part (pos n) = 0
neg_part (negsuc n) = suc n

-- a - b, as an integer.
abbrev pub sub_ℕ : ℕ → ℕ → ℤ
sub_ℕ a b = if leb b a then pos (a - b) else negsuc (b - a - 1)

infixl 65 ◌+ℤ◌
unfoldable pub ◌+ℤ◌ : ℤ → ℤ → ℤ
a +ℤ b = sub_ℕ (pos_part a + pos_part b) (neg_part a + neg_part b)

infix 50 ◌<ℤ◌ ◌≤ℤ◌
abbrev pub ◌<ℤ◌ : ℤ → ℤ → Type 0
a <ℤ b = pos_part a + neg_part b < pos_part b + neg_part a

abbrev pub ◌≤ℤ◌ : ℤ → ℤ → Type 0
a ≤ℤ b = pos_part a + neg_part b ≤ pos_part b + neg_part a

abbrev pub ltb_ℤ : ℤ → ℤ → Bool
ltb_ℤ a b = ltb (pos_part a + neg_part b) (pos_part b + neg_part a)

abbrev pub leb_ℤ : ℤ → ℤ → Bool
leb_ℤ a b = leb (pos_part a + neg_part b) (pos_part b + neg_part a)

abbrev pub eqb_ℤ : ℤ → ℤ → Bool
eqb_ℤ a b = (pos_part a + neg_part b) == (pos_part b + neg_part a)

pub eq_of_parts : (a b : ℤ) → pos_part a + neg_part b ≡ pos_part b + neg_part a → a ≡ b
eq_of_parts a b h = ground arith

pub eqb_ℤ_iff : (a b : ℤ) → (eqb_ℤ a b ≡ true) ↔ (a ≡ b)
eqb_ℤ_iff a b = ground arith

instance abbrev pub int_eq : Eq ℤ
int_eq = record { beq = eqb_ℤ; beq_iff = eqb_ℤ_iff }

-- The sum of two int32 values, brought back into the range.
unfoldable pub wrap32 : ℤ → ℤ
unfolding ◌+ℤ◌
wrap32 z =
    if ltb_ℤ (pos 2147483647) z
    then z +ℤ negsuc 4294967295
    else if ltb_ℤ z (negsuc 2147483647)
    then z +ℤ pos 4294967296
    else z

unfoldable pub add32 : ℤ → ℤ → ℤ
unfolding wrap32
add32 a b = wrap32 (a +ℤ b)

-- `x++` and `x--`
unfoldable pub inc32 : ℤ → ℤ
unfolding add32
inc32 a = add32 a (pos 1)

unfoldable pub dec32 : ℤ → ℤ
unfolding add32
dec32 a = add32 a (negsuc 0)

pub inc32-pos : (n : ℕ) → n < 2147483647 → inc32 (pos n) ≡ pos (suc n)
unfolding inc32
inc32-pos n h = ground arith

-- An increment of a value below the top is no smaller and strictly larger.
pub lt-inc32 : (a : ℤ) → a <ℤ pos 2147483647 → a <ℤ inc32 a
unfolding inc32
lt-inc32 a h = ground arith

pub dec32-inc32 : (a : ℤ) → a <ℤ pos 2147483647 → negsuc 2147483647 ≤ℤ a → dec32 (inc32 a) ≡ a
unfolding inc32 dec32
dec32-inc32 a h k = ground arith
