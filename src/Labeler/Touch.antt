-- ===== src/Labeler/Touch.antt =====
-- What a label of crates/se-labeler/src/triple_barrier.rs means: the first touch of a barrier, on the bars of the series.
use swing_x.Prelude.{ℕ, ◌+◌, ◌≤◌, ◌<◌, ◌≡◌, ◌∙◌, none, some, List, length, get_elem?}
use swing_x.Float.{Float}
use swing_x.Core.Market.{Side, Bar, sign}
use swing_x.Core.Risk.{RiskModel, risk_distance, stop_price, target_distance}
use swing_x.Labeler.{Outcome, target, stop, time, LabelEvent, last_index}
use swing_x.Labeler.FirstTouch.{touched}

module _ {F : Type 0} ⦃f : Float F⦄ where
  open f use {of_ℕ, add, sub, mul, div, neg}

  abbrev pub target_barrier : RiskModel F → Bar F → F → Side → F
  target_barrier risk entry atr side = add entry.close (
      mul (sign side)
        (target_distance risk.target1 entry.close atr (risk_distance risk entry.close atr)))

  abbrev pub stop_barrier : RiskModel F → Bar F → F → Side → F
  stop_barrier risk entry atr side = stop_price risk entry.close atr side

  -- The outcome and the return for an exit at bar `exit`, number `j`, after a walk that ends at
  -- `last` and touches no bar strictly between the entry and `j`.
  pub data Settled (risk : RiskModel F) (entry : Bar F) (atr : F) (side : Side) (i last j : ℕ)
      (exit : Bar F) (o : Outcome) (r : F) : Type 0 where
    by_stop :
        i < j
        → touched (target_barrier risk entry atr side) (stop_barrier risk entry atr side) side exit
          ≡ some stop
        → o ≡ stop
        → r ≡ neg (of_ℕ 1)
        → Settled risk entry atr side i last j exit o r
    by_target :
        i < j
        → touched (target_barrier risk entry atr side) (stop_barrier risk entry atr side) side exit
          ≡ some target
        → o ≡ target
        → r
          ≡ div
              (target_distance risk.target1 entry.close atr (risk_distance risk entry.close atr))
              (risk_distance risk entry.close atr)
        → Settled risk entry atr side i last j exit o r
    by_time :
        j ≡ last
        → (i < j
            → touched
                (target_barrier risk entry atr side)
                (stop_barrier risk entry atr side)
                side
                exit
              ≡ none)
        → o ≡ time
        → r
          ≡ div (mul (sign side) (sub exit.close entry.close)) (risk_distance risk entry.close atr)
        → Settled risk entry atr side i last j exit o r

  pub Settled-eq :
      {risk : RiskModel F} {entry : Bar F} {atr : F} {side : Side} {i last j : ℕ} {exit : Bar F}
      {o o' : Outcome} {r r' : F}
      → Settled risk entry atr side i last j exit o r
      → o' ≡ o
      → r' ≡ r
      → Settled risk entry atr side i last j exit o' r'
  Settled-eq (by_stop lt t e k) p q = by_stop lt t (p ∙ e) (q ∙ k)
  Settled-eq (by_target lt t e k) p q = by_target lt t (p ∙ e) (q ∙ k)
  Settled-eq (by_time at t e k) p q = by_time at t (p ∙ e) (q ∙ k)

  pub record IsFirstTouch (max_hold : ℕ) (bars : List (Bar F)) (i : ℕ) (side : Side) (atr : F)
      (risk : RiskModel F) (event : LabelEvent F) : Type 0 where
    pub entry : Bar F
    pub at_entry : get_elem? bars i ≡ some entry
    pub exit_idx : ℕ
    pub exit : Bar F
    pub at_exit : get_elem? bars exit_idx ≡ some exit
    pub not_before : i ≤ exit_idx
    pub within_hold : exit_idx ≤ i + max_hold
    pub entry_ts : event.entry_ts ≡ entry.ts
    pub t1 : event.t1 ≡ exit.ts
    pub same_side : event.side ≡ side
    pub entry_px : event.entry_px ≡ entry.close
    pub target_px : event.target_px ≡ target_barrier risk entry atr side
    pub stop_px : event.stop_px ≡ stop_barrier risk entry atr side
    pub untouched :
        (k : ℕ) (c : Bar F)
        → i < k
        → k < exit_idx
        → get_elem? bars k ≡ some c
        → touched (target_barrier risk entry atr side) (stop_barrier risk entry atr side) side c
          ≡ none
    pub settled :
        Settled risk entry atr side i
          (last_index i max_hold (length bars))
          exit_idx
          exit
          event.outcome
          event.ret_r
