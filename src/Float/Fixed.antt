-- ===== src/Float/Fixed.antt =====
-- Decimals with four places, one infinity and NaN: a type that meets the laws and computes.
use swing_x.Prelude.{
  ℕ, zero, suc, ◌+◌, ◌-◌, ◌*◌, ◌/◌, ◌^◌, Bool, true, false, not, ◌&&◌, leb, if◌then◌else◌,
}
use swing_x.Prelude.Int.{
  negsuc, ℤ, pos, pos_part, neg_part, sub_ℕ, leb_ℤ, magnitude, is_neg, signed,
}
use swing_x.Float.{Float}

pub data Fixed : Type 0 where
  not_a_number neg_inf inf : Fixed
  num : ℤ → Fixed

abbrev pub scale : ℕ
scale = 10_000

abbrev pub le_fixed : Fixed → Fixed → Bool
le_fixed (num a) (num b) = leb_ℤ a b
le_fixed (num a) inf = true
le_fixed neg_inf (num a) = true
le_fixed neg_inf neg_inf = true
le_fixed neg_inf inf = true
le_fixed inf inf = true
le_fixed _ _ = false

abbrev pub lt_fixed : Fixed → Fixed → Bool
lt_fixed x y = le_fixed x y && not (le_fixed y x)

abbrev pub neg_fixed : Fixed → Fixed
neg_fixed (num a) = num (sub_ℕ (neg_part a) (pos_part a))
neg_fixed inf = neg_inf
neg_fixed neg_inf = inf
neg_fixed not_a_number = not_a_number

abbrev pub add_fixed : Fixed → Fixed → Fixed
add_fixed (num a) (num b) = num (sub_ℕ (pos_part a + pos_part b) (neg_part a + neg_part b))
add_fixed (num a) y = y
add_fixed inf (num b) = inf
add_fixed inf inf = inf
add_fixed neg_inf (num b) = neg_inf
add_fixed neg_inf neg_inf = neg_inf
add_fixed _ _ = not_a_number

abbrev pub sub_fixed : Fixed → Fixed → Fixed
sub_fixed x y = add_fixed x (neg_fixed y)

abbrev pub differ : Bool → Bool → Bool
differ true b = not b
differ false b = b

-- The sign of a value, where it has one: `true` is minus.
abbrev pub sign_of : Fixed → Bool
sign_of (num a) = is_neg a
sign_of neg_inf = true
sign_of _ = false

abbrev pub signed_inf : Bool → Fixed
signed_inf negative = if negative then neg_inf else inf

-- One is neutral exactly, and minus one negates.
abbrev pub mul_fixed : Fixed → Fixed → Fixed
mul_fixed (num a) (num b) =
    num (signed (differ (is_neg a) (is_neg b)) (magnitude a * magnitude b / 10_000))
mul_fixed not_a_number y = not_a_number
mul_fixed x not_a_number = not_a_number
mul_fixed x y = signed_inf (differ (sign_of x) (sign_of y))

abbrev pub div_fixed : Fixed → Fixed → Fixed
div_fixed (num a) (num b) =
    if leb (magnitude b) 0
    then not_a_number
    else num (signed (differ (is_neg a) (is_neg b)) (magnitude a * scale / magnitude b))
div_fixed (num a) inf = num (pos 0)
div_fixed (num a) neg_inf = num (pos 0)
div_fixed _ _ = not_a_number

-- The integer square root by bisection between two bounds.
sqrt_between : ℕ → ℕ → ℕ → ℕ → ℕ
sqrt_between zero lo hi n = lo
sqrt_between (suc fuel) lo hi n =
    let mid = (lo + hi) / 2 in
    let up = sqrt_between fuel mid hi n in
    let down = sqrt_between fuel lo mid n in if leb (mid * mid) n then up else down

unfoldable pub sqrt_fixed : Fixed → Fixed
unfolding sqrt_between
sqrt_fixed (num (pos n)) = num (pos (sqrt_between 64 0 (n * scale + 1) (n * scale)))
sqrt_fixed inf = inf
sqrt_fixed _ = not_a_number

unfoldable pub round_fixed : Fixed → ℕ
round_fixed (num (pos n)) = (n + 5000) / scale
round_fixed inf = 2 ^ 64 - 1
round_fixed _ = 0

unfoldable pub ceil_fixed : Fixed → ℕ
ceil_fixed (num (pos n)) = (n + 9999) / scale
ceil_fixed inf = 2 ^ 64 - 1
ceil_fixed _ = 0

abbrev pub finite_fixed : Fixed → Bool
finite_fixed (num a) = true
finite_fixed _ = false

abbrev pub abs_fixed : Fixed → Fixed
abs_fixed (num a) = num (pos (magnitude a))
abs_fixed neg_inf = inf
abs_fixed x = x

abbrev pub round_half : Fixed → Fixed
round_half (num (pos n)) = num (pos ((n + 5000) / scale * scale))
round_half (num (negsuc n)) = neg_fixed (num (pos ((n + 5001) / scale * scale)))
round_half x = x

instance abbrev pub fixed_float : Float Fixed
fixed_float = record {
  of_ℕ = λ n. num (pos (n * scale));
  decimal = λ m k. num (pos (m * scale / 10 ^ k));
  infinity = inf;
  max_value = num (pos (10 ^ 18));
  nan = not_a_number;
  lt = lt_fixed;
  le = le_fixed;
  add = add_fixed;
  sub = sub_fixed;
  mul = mul_fixed;
  div = div_fixed;
  neg = neg_fixed;
  abs = abs_fixed;
  sqrt = sqrt_fixed;
  is_finite = finite_fixed;
  round = round_half;
  round_usize = round_fixed;
  ceil_usize = ceil_fixed;
}
