-- ===== src/Search/Backtest/Replay.antt =====
-- The entries of a backtest replay bars of the window.
use swing_x.Prelude.{
  ℕ, ◌+◌, max, ◌<◌, ◌≡◌, refl, ap, ◌∙◌, ◌⊎◌, inl, inr, true, false, ◌||◌, Option, none, some, List,
  [], ◌∷◌, ◌++◌, append_assoc, append_nil, arith, leb, length, is_empty, Bool-cases,
}
use swing_x.Prelude.Results.{Result, ok, err}
use swing_x.Float.{Float}
use swing_x.Core.Market.{Bar}
use swing_x.Core.Horizon.{HorizonProfile}
use swing_x.Core.Genome.{Genome, fires}
use swing_x.Labeler.{LabelEvent, LabelError, label_one_with_risk}
use swing_x.Regime.{as_str, is_tradeable}
use swing_x.Search.Backtest.{
  BarPoint, FeatureWindow, LabeledEntry, Walk, in_cooldown, to_column_features, empty_result,
  record_label, regime_at, label_point, visit, walk, backtest,
}

-- The first list is what is left of the second when some of its members are passed over.
abbrev pub Within : {A : Type 0} → List A → List A → Type 0
Within [] ps = Unit
Within (t ∷ ts) [] = ⊥
Within (t ∷ ts) (p ∷ ps) = ((p ≡ t) × Within ts ps) ⊎ Within (t ∷ ts) ps

-- More than a cooldown after the entry before, if there is one.
abbrev pub IsAfter : ℕ → Option ℕ → ℕ → Type 0
IsAfter cooldown none idx = Unit
IsAfter cooldown (some prev) idx = prev + cooldown < idx

module _ {F : Type 0} ⦃f : Float F⦄ (exp : F → F) (genome : Genome F) (profile : HorizonProfile F)
    (bars : List (Bar F)) where
  -- The genome fires at the point in a tradeable regime, and the entry is the label of its bar.
  pub record Opens (p : BarPoint F) (e : LabeledEntry F) : Type 0 where
    pub atr : F
    pub fired : fires genome p.features ≡ true
    pub tradeable : is_tradeable (regime_at exp genome profile bars p) ≡ true
    pub has_atr : p.atr ≡ some atr
    pub has_next : p.idx + 1 < length bars
    pub labelled : label_one_with_risk profile bars p.idx genome.side atr genome.risk ≡ ok e.event
    pub regime : e.regime ≡ some (as_str (regime_at exp genome profile bars p))
    pub features : e.features ≡ to_column_features p.features

  abbrev pub cooldown : ℕ
  cooldown = max profile.min_hold_bars 1

  -- Point by point, in the same order and each after the cooldown of the one before.
  abbrev pub Replays : Option ℕ → List (BarPoint F) → List (LabeledEntry F) → Type 0
  Replays prev [] [] = Unit
  Replays prev (p ∷ ps) (e ∷ es) =
      IsAfter cooldown prev p.idx × Opens p e × Replays (some p.idx) ps es
  Replays prev _ _ = ⊥

  -- What one bar does: nothing to the entries, or one more.
  data Step (w : Walk F) (p : BarPoint F) (w' : Walk F) : Type 0 where
    passed :
        w'.result.entries ≡ w.result.entries → w'.last_entry_idx ≡ w.last_entry_idx → Step w p w'
    entered :
        (e : LabeledEntry F)
        → w'.result.entries ≡ w.result.entries ++ e ∷ []
        → w'.last_entry_idx ≡ some p.idx
        → IsAfter cooldown w.last_entry_idx p.idx
        → Opens p e
        → Step w p w'

  IsAfter-in_cooldown :
      (n : ℕ) (o : Option ℕ) (idx : ℕ) → in_cooldown n o idx ≡ false → IsAfter n o idx
  IsAfter-in_cooldown n none idx h = tt
  IsAfter-in_cooldown n (some prev) idx h = ground arith

  record_label-Step :
      (w : Walk F) (p : BarPoint F) (atr : F) (r : Result LabelError (LabelEvent F))
      → IsAfter cooldown w.last_entry_idx p.idx
      → fires genome p.features ≡ true
      → is_tradeable (regime_at exp genome profile bars p) ≡ true
      → p.atr ≡ some atr
      → p.idx + 1 < length bars
      → label_one_with_risk profile bars p.idx genome.side atr genome.risk ≡ r
      → Step w p (record_label w p (regime_at exp genome profile bars p) r)
  record_label-Step w p atr (err e) after fired ok_regime has_atr next eq = passed refl refl
  record_label-Step w p atr (ok event) after fired ok_regime has_atr next eq =
      entered _ refl refl after (record {
        atr = atr;
        fired = fired;
        tradeable = ok_regime;
        has_atr = has_atr;
        has_next = next;
        labelled = eq;
        regime = refl;
        features = refl;
      })

  label_point-Step :
      (w : Walk F) (p : BarPoint F) (o : Option F)
      → IsAfter cooldown w.last_entry_idx p.idx
      → fires genome p.features ≡ true
      → is_tradeable (regime_at exp genome profile bars p) ≡ true
      → p.atr ≡ o
      → Step w p (label_point exp genome profile bars w p o)
  label_point-Step w p none after fired ok_regime has_atr = passed refl refl
  label_point-Step w p (some atr) after fired ok_regime has_atr =
      elim (Bool-cases (leb (length bars) (p.idx + 1))) [
        | inl c ↦ rw c (passed refl refl)
        | inr c ↦
            rw c (record_label-Step w p atr _ after fired ok_regime has_atr (ground arith) refl)
      ]

  visit-Step : (w : Walk F) (p : BarPoint F) → Step w p (visit exp genome profile bars w p)
  unfolding visit
  visit-Step w p = elim (Bool-cases (in_cooldown cooldown w.last_entry_idx p.idx)) [
    | inl c ↦ rw c (passed refl refl)
    | inr c ↦ elim (Bool-cases (fires genome p.features)) [
      | inr d ↦ rw c (rw d (passed refl refl))
      | inl d ↦ elim (Bool-cases (is_tradeable (regime_at exp genome profile bars p))) [
        | inr e ↦ rw c (rw d (rw e (passed refl refl)))
        | inl e ↦ rw c (
            rw d (
              rw e (
                label_point-Step w p p.atr (IsAfter-in_cooldown cooldown w.last_entry_idx p.idx c) d
                  e refl)))
      ]
    ]
  ]

  -- Entries that replay some of the points, in order.
  pub record IsReplay (prev : Option ℕ) (ps : List (BarPoint F)) (es : List (LabeledEntry F))
      : Type 0 where
    pub taken : List (BarPoint F)
    pub within : Within taken ps
    pub replays : Replays prev taken es

  -- The walk adds a replay of the points to the entries that there were.
  record Adds (w : Walk F) (ps : List (BarPoint F)) (w' : Walk F) : Type 0 where
    new : List (LabeledEntry F)
    entries : w'.result.entries ≡ w.result.entries ++ new
    replay : IsReplay w.last_entry_idx ps new

  Within-skip :
      (ts : List (BarPoint F)) (p : BarPoint F) (ps : List (BarPoint F))
      → Within ts ps
      → Within ts (p ∷ ps)
  Within-skip [] p ps h = tt
  Within-skip (t ∷ ts) p ps h = inr h

  Adds-Step :
      (w w1 w2 : Walk F) (p : BarPoint F) (ps : List (BarPoint F))
      → Step w p w1
      → Adds w1 ps w2
      → Adds w (p ∷ ps) w2
  Adds-Step w w1 w2 p ps (passed same last) a = record {
    new = a.new;
    entries = a.entries ∙ ap (λ l. l ++ a.new) same;
    replay =
        let r : IsReplay w.last_entry_idx ps a.new = rw (← last) a.replay in
        record { taken = r.taken; within = Within-skip r.taken p ps r.within; replays = r.replays };
  }
  Adds-Step w w1 w2 p ps (entered e more last after opens) a = record {
    new = e ∷ a.new;
    entries =
        a.entries ∙ (ap (λ l. l ++ a.new) more ∙ append_assoc w.result.entries (e ∷ []) a.new);
    replay =
        let r : IsReplay (some p.idx) ps a.new = rw (← last) a.replay in
        record {
          taken = p ∷ r.taken;
          within = inl (refl, r.within);
          replays = (after, opens, r.replays);
        };
  }

  walk-Adds : (ps : List (BarPoint F)) (w : Walk F) → Adds w ps (walk exp genome profile bars w ps)
  unfolding walk
  walk-Adds [] w = record {
    new = [];
    entries = append_nil w.result.entries;
    replay = record { taken = []; within = tt; replays = tt };
  }
  walk-Adds (p ∷ ps) w =
      let w1 = visit exp genome profile bars w p in
      Adds-Step w w1 (walk exp genome profile bars w1 ps) p ps (visit-Step w p) (walk-Adds ps w1)

module _ {F : Type 0} ⦃f : Float F⦄ (exp : F → F) where
  -- The entries of a backtest replay points of the window in their order: at each the genome fires in a
  -- tradeable regime, the entry is the label of that bar under the genome's side and risk, and its index
  -- is more than the cooldown after that of the entry before.
  pub backtest-IsReplay :
      (genome : Genome F) (window : FeatureWindow F) (profile : HorizonProfile F)
      → IsReplay exp genome profile window.bars none window.points
          (backtest exp genome window profile).entries
  unfolding backtest
  backtest-IsReplay genome window profile =
      elim (Bool-cases (is_empty window.points || is_empty window.bars)) [
        | inl c ↦ rw c (record { taken = []; within = tt; replays = tt })
        | inr c ↦
            let start : Walk F = record { result = empty_result; last_entry_idx = none } in
            let a = walk-Adds exp genome profile window.bars window.points start in
            rw c (rw a.entries a.replay)
      ]
