-- ===== src/Store/Known.antt =====
-- No read at a decision bar sees a row that is not known by then.
use swing_x.Prelude.{
  ℕ, ◌≡◌, refl, sym, ap, ◌∙◌, Option, inl, inr, Bool, true, ◌&&◌, List, [], ◌∷◌, String, str_eq,
  leb, keep_if, Bool-cases, arith,
}
use swing_x.Core.Layer.{Layer}
use swing_x.Store.{Tables}
use swing_x.Store.Pit.{
  bar_known, feature_known, macro_known, in_layer, features, feature, bars_for, macro_value_as_of,
  macro_history, pit,
}

-- A row that passes the first test passes the second one, so that filtering by the second one first
-- changes nothing.
pub keep_if-keep_if :
    {R : Type 0} (p q : R → Bool) (rs : List R)
    → ((r : R) → p r ≡ true → q r ≡ true)
    → keep_if p (keep_if q rs) ≡ keep_if p rs
keep_if-keep_if p q [] h = refl
keep_if-keep_if p q (r ∷ rs) h = elim (Bool-cases (q r)) [
  | inl e ↦ elim (Bool-cases (p r)) [
    | inl d ↦ rw e (rw d (ap (◌∷◌ r) (keep_if-keep_if p q rs h)))
    | inr d ↦ rw e (rw d (keep_if-keep_if p q rs h))
  ]
  | inr e ↦ elim (Bool-cases (p r)) [
    | inl d ↦ cc (h r d, e)
    | inr d ↦ rw e (rw d (keep_if-keep_if p q rs h))
  ]
]

-- Neither an event nor the knowledge of it is later than the time.
abbrev pub is_by : ℕ → ℕ → ℕ → Bool
is_by t event as_of = leb event t && leb as_of t

module _ {F : Type 0} where
  -- The rows of the tables that are known at a time.
  abbrev pub known : ℕ → Tables F → Tables F
  known t db = record db {
    bars = keep_if (λ r. is_by t r.bar.ts r.as_of) db.bars;
    features = keep_if (λ r. is_by t r.decision_ts r.as_of) db.features;
    macros = keep_if (λ r. is_by t r.ts r.as_of) db.macros;
  }

  bars_for-known :
      (db : Tables F) (t : ℕ) (ticker cadence : String) (n : ℕ)
      → bars_for (known t db) t ticker cadence n ≡ bars_for db t ticker cadence n
  unfolding bars_for
  bars_for-known db t ticker cadence n =
      rw
        (keep_if-keep_if
          (λ r. str_eq r.bar.ticker ticker && (str_eq r.cadence cadence && bar_known t r))
          (λ r. is_by t r.bar.ts r.as_of) db.bars (λ r h. ground (arith, h)))
        refl

  features-known :
      (db : Tables F) (ticker : String) (t : ℕ) (layer : Option Layer)
      → features (known t db) ticker t layer ≡ features db ticker t layer
  unfolding features
  features-known db ticker t layer =
      rw
        (keep_if-keep_if
          (λ r. str_eq r.ticker ticker && (feature_known t r && in_layer layer r.layer))
          (λ r. is_by t r.decision_ts r.as_of) db.features (λ r h. ground (arith, h)))
        refl

  feature-known :
      (db : Tables F) (ticker : String) (t : ℕ) (key : String)
      → feature (known t db) ticker t key ≡ feature db ticker t key
  unfolding feature
  feature-known db ticker t key =
      rw
        (keep_if-keep_if
          (λ r. str_eq r.ticker ticker && (str_eq r.feature_key key && feature_known t r))
          (λ r. is_by t r.decision_ts r.as_of) db.features (λ r h. ground (arith, h)))
        refl

  macro_value_as_of-known :
      (db : Tables F) (t : ℕ) (series : String)
      → macro_value_as_of (known t db) t series ≡ macro_value_as_of db t series
  unfolding macro_value_as_of
  macro_value_as_of-known db t series =
      rw
        (keep_if-keep_if (λ r. str_eq r.series series && macro_known t r)
          (λ r. is_by t r.ts r.as_of) db.macros (λ r h. ground (arith, h)))
        refl

  macro_history-known :
      (db : Tables F) (t : ℕ) (series : String) (n : ℕ)
      → macro_history (known t db) t series n ≡ macro_history db t series n
  unfolding macro_history
  macro_history-known db t series n =
      rw
        (keep_if-keep_if (λ r. str_eq r.series series && macro_known t r)
          (λ r. is_by t r.ts r.as_of) db.macros (λ r h. ground (arith, h)))
        refl

  -- Every read of a handle.
  pub pit-known :
      (db : Tables F) (ticker : String) (t : ℕ) → pit (known t db) ticker t ≡ pit db ticker t
  unfolding pit
  pit-known db ticker t = λ i. record {
    ticker = ticker;
    decision_ts = t;
    features = λ layer. features-known db ticker t layer i;
    feature = λ key. feature-known db ticker t key i;
    bars_for = λ other cadence n. bars_for-known db t other cadence n i;
    macro_value_as_of = λ series. macro_value_as_of-known db t series i;
    macro_history = λ series n. macro_history-known db t series n i;
  }

  -- Two stores that hold the same rows known at the decision bar give the same handle there: no read, of
  -- bars, features or macro series, of the ticker or of another one, sees what is dated or learned later.
  pub pit-agrees :
      (db db' : Tables F) (ticker : String) (t : ℕ)
      → known t db ≡ known t db'
      → pit db ticker t ≡ pit db' ticker t
  pit-agrees db db' ticker t same =
      sym (pit-known db ticker t) ∙ (ap (λ d. pit d ticker t) same ∙ pit-known db' ticker t)
