-- ===== src/Core/Market.antt =====
-- `Side` and `Bar` of crates/se-core/src/time.rs. A time is the number of nanoseconds since the
-- earliest `DateTime`; the ticker is a text.
use swing_x.Prelude.{ℕ, String, if◌then◌else◌, ◌&&◌}
use swing_x.Float.{Float, fmax}

pub data Side : Type 0 where
  long short : Side

pub record Bar (F : Type 0) : Type 0 where
  pub ticker : String
  pub ts : ℕ
  pub open_px : F
  pub high : F
  pub low : F
  pub close : F
  pub volume : F

module _ {F : Type 0} ⦃f : Float F⦄ where
  open f use {of_ℕ, add, sub, div, neg, abs, le}

  abbrev pub sign : Side → F
  sign Side.long = of_ℕ 1
  sign Side.short = neg (of_ℕ 1)

  abbrev pub range : Bar F → F
  range b = sub b.high b.low

  abbrev pub typical_price : Bar F → F
  typical_price b = div (add (add b.high b.low) b.close) (of_ℕ 3)

  unfoldable pub true_range : Bar F → F → F
  true_range b prev_close =
      fmax (fmax (sub b.high b.low) (abs (sub b.high prev_close))) (abs (sub b.low prev_close))

  unfoldable pub intrabar_return : Bar F → F
  intrabar_return b =
      if le b.open_px (of_ℕ 0) && le (of_ℕ 0) b.open_px
      then of_ℕ 0
      else sub (div b.close b.open_px) (of_ℕ 1)
