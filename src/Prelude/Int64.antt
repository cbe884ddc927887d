-- ===== src/Prelude/Int64.antt =====
-- Go's `int64`, and `int` on the platforms of the program: a signed number as its bit pattern.
use clip_cascade_go_fork.Prelude.{
  ℕ, ◌+◌, ◌-◌, ◌*◌, ◌%◌, ◌^◌, ◌<◌, ◌≡◌, Bool, arith, ltb, leb, if◌then◌else◌,
}
use clip_cascade_go_fork.Prelude.Int.{ℤ, pos, negsuc, pos_part, neg_part}

abbrev pub modulus : ℕ
modulus = 2 ^ 64

abbrev pub half_modulus : ℕ
half_modulus = 2 ^ 63

abbrev pub leb_ℤ : ℤ → ℤ → Bool
leb_ℤ a b = leb (pos_part a + neg_part b) (pos_part b + neg_part a)

unfoldable pub to_bits : ℤ → ℕ
to_bits (pos n) = n % modulus
to_bits (negsuc n) = modulus - 1 - n % modulus

unfoldable pub of_bits : ℕ → ℤ
of_bits b = if ltb b half_modulus then pos b else negsuc (modulus - 1 - b)

-- `a * b` with wrap-around.
unfoldable pub mul64 : ℤ → ℤ → ℤ
unfolding to_bits of_bits
mul64 a b = of_bits ((to_bits a * to_bits b) % modulus)

-- Where the product of two numbers that are not negative fits, there is no wrap-around.
pub mul64-exact :
    (a b : ℕ)
    → a * b < half_modulus
    → a < modulus
    → b < modulus
    → mul64 (pos a) (pos b) ≡ pos (a * b)
unfolding mul64
mul64-exact a b h p q =
    let ea : a % modulus ≡ a = omega arith in
    let eb : b % modulus ≡ b = omega arith in rw (ea, eb) (ground arith)
