-- ===== src/Float/Order.antt =====
-- What the laws of comparison give: strict and weak order, and the absence of NaN.
use swing_x.Prelude.{◌≡◌, false, arith}
use swing_x.Float.{Float, IsFloat, ◌≼◌, ◌≺◌}

module _ {F : Type 0} ⦃f : Float F⦄ (laws : IsFloat F) where
  open laws use {number_of_le, le_trans, le_total, lt-eq}

  pub le_of_lt : (x y : F) → x ≺ y → x ≼ y
  le_of_lt x y h = ground (arith, lt-eq x y)

  pub not-le_of_lt : (x y : F) → x ≺ y → f.le y x ≡ false
  not-le_of_lt x y h = ground (arith, lt-eq x y)

  -- Between numbers, what is not below is above.
  pub le_of_not_lt : (x y : F) → x ≼ x → y ≼ y → f.lt x y ≡ false → y ≼ x
  le_of_not_lt x y hx hy h = ground (arith, lt-eq x y, le_total x y hx hy)

  pub lt_irrefl : (x : F) → f.lt x x ≡ false
  lt_irrefl x = ground (arith, lt-eq x x)
