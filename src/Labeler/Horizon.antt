-- ===== src/Labeler/Horizon.antt =====
-- A label looks no further than the horizon of its profile, and a batch is its labels one by one.
use swing_x.Prelude.{
  ℕ, zero, suc, ◌+◌, ◌-◌, ◌≤◌, ◌<◌, ◌≡◌, refl, sym, ap, ◌∙◌, Option, none, some, List, [], ◌∷◌,
  ◌++◌, arith, length, length-append, get_elem?, get_elem?-lt, take, drop, lt→ltb,
}
use swing_x.Prelude.Results.{Result, ◌>>=◌, or_fail}
use swing_x.Float.{Float}
use swing_x.Core.Market.{Side, Bar, sign}
use swing_x.Core.Horizon.{HorizonProfile, purge_bars}
use swing_x.Core.Risk.{RiskModel, risk_distance}
use swing_x.Labeler.{
  Outcome, target, stop, time, LabelEvent, LabelError, panic, slice, last_index, settle, label_from,
  label_one_with_risk,
}
use swing_x.Labeler.FirstTouch.{first_touch-some}
use swing_x.Labeler.Slice.{slice_of_bounds, get_elem?-slice}
use swing_x.Labeler.Spec.{checked}

module _ {ℓ} {A : Type ℓ} where
  get_elem?-append :
      (xs ys : List A) (i : ℕ) → i < length xs → get_elem? (xs ++ ys) i ≡ get_elem? xs i
  get_elem?-append [] ys i h = absurd (omega arith)
  get_elem?-append (x ∷ xs) ys zero h = refl
  get_elem?-append (x ∷ xs) ys (suc i) h = get_elem?-append xs ys i (omega arith)

  take-append : (n : ℕ) (xs ys : List A) → n ≤ length xs → take n (xs ++ ys) ≡ take n xs
  take-append zero xs ys h = refl
  take-append (suc n) [] ys h = absurd (omega arith)
  take-append (suc n) (x ∷ xs) ys h = ap (◌∷◌ x) (take-append n xs ys (omega arith))

  drop-append : (n : ℕ) (xs ys : List A) → n ≤ length xs → drop n (xs ++ ys) ≡ drop n xs ++ ys
  drop-append zero xs ys h = refl
  drop-append (suc n) [] ys h = absurd (omega arith)
  drop-append (suc n) (x ∷ xs) ys h = drop-append n xs ys (omega arith)

  length-drop : (n : ℕ) (xs : List A) → length (drop n xs) ≡ length xs - n
  length-drop zero xs = omega arith
  length-drop (suc n) [] = omega arith
  length-drop (suc n) (x ∷ xs) = omega (arith, length-drop n xs)

  slice-append :
      (xs ys : List A) (a b : ℕ) → a ≤ b + 1 → b < length xs → slice (xs ++ ys) a b ≡ slice xs a b
  slice-append xs ys a b h k =
      slice_of_bounds (xs ++ ys) a b h (omega (arith, length-append xs ys))
      ∙ ap some (
          rw (drop-append a xs ys (omega arith))
            (take-append (b + 1 - a) (drop a xs) ys (omega (arith, length-drop a xs))))
      ∙ sym (slice_of_bounds xs a b h k)

module _ {F : Type 0} ⦃f : Float F⦄ (bars more : List (Bar F)) where
  -- The end of `label_from`, whatever it does with the exit bar.
  settle-append :
      (s entry_px risk_dist target1_dist : F) (last : ℕ) (o : Option (ℕ × Outcome))
      (k : ℕ × Outcome × F → Bar F → Result LabelError (LabelEvent F))
      → last < length bars
      → ((r : ℕ × Outcome) → o ≡ some r → r.0 < length bars)
      → (settle (bars ++ more) s entry_px risk_dist target1_dist last o >>= λ x.
          or_fail (get_elem? (bars ++ more) x.0) panic >>= k x)
        ≡ (settle bars s entry_px risk_dist target1_dist last o >>= λ x.
            or_fail (get_elem? bars x.0) panic >>= k x)
  settle-append s e r t last none k h b =
      let (exit, seen) = get_elem?-lt bars last h in
      simp (get_elem?-append bars more last h, seen, settle)
  settle-append s e r t last (some (j, target)) k h b =
      simp (get_elem?-append bars more j (b _ refl))
  settle-append s e r t last (some (j, stop)) k h b = simp (get_elem?-append bars more j (b _ refl))
  settle-append s e r t last (some (j, time)) k h b = simp (get_elem?-append bars more j (b _ refl))

  label_from-append :
      (max_hold i : ℕ) (side : Side) (atr : F) (risk : RiskModel F) (entry : Bar F) (R : F)
      → i + max_hold < length bars
      → label_from max_hold (bars ++ more) i side atr risk entry R
        ≡ label_from max_hold bars i side atr risk entry R
  label_from-append max_hold i side atr risk entry R h =
      let last = last_index i max_hold (length bars) in
      let same : last_index i max_hold (length (bars ++ more)) ≡ last =
        omega (arith, length-append bars more) in
      let span = take (last + 1 - (i + 1)) (drop (i + 1) bars) in
      let is_span : slice bars (i + 1) last ≡ some span =
        slice_of_bounds bars (i + 1) last (omega arith) (omega arith) in
      rw (same, slice-append bars more (i + 1) last (omega arith) (omega arith), is_span)
        (settle-append (sign side) entry.close R _ last _ _ (omega arith) λ r e.
          let (d, at, first) = first_touch-some _ _ side span (i + 1) r e in
          let (_, le) = get_elem?-slice bars (i + 1) last d span is_span first.at_bar in
          omega arith)

  checked-append :
      (profile : HorizonProfile F) (i : ℕ) (side : Side) (atr : F) (risk : RiskModel F)
      (entry : Bar F)
      → i + purge_bars profile < length bars
      → checked profile (bars ++ more) i side atr risk entry
        ≡ checked profile bars i side atr risk entry
  checked-append profile i side atr risk entry h = rw (
      label_from-append profile.max_hold_bars i side atr risk entry
        (risk_distance risk entry.close atr) h)

  -- No look-ahead beyond the horizon: once the series holds the bar `purge_bars` after the entry, the
  -- bars that come later do not change the label, nor an error.
  pub label_one_with_risk-append :
      (profile : HorizonProfile F) (i : ℕ) (side : Side) (atr : F) (risk : RiskModel F)
      → i + purge_bars profile < length bars
      → label_one_with_risk profile (bars ++ more) i side atr risk
        ≡ label_one_with_risk profile bars i side atr risk
  unfolding label_one_with_risk
  label_one_with_risk-append profile i side atr risk h =
      let inside : i < length bars = omega arith in
      let (entry, found) = get_elem?-lt bars i inside in
      rw (
        get_elem?-append bars more i inside,
        found,
        lt→ltb i (length (bars ++ more)) (omega (arith, length-append bars more)),
        lt→ltb i (length bars) inside,
        checked-append profile i side atr risk entry h,
      )
