-- ===== src/Search/Observe/Observed.antt =====
-- What stands in the catalog was observed.
use Prim.Native.Nat.{Ordering}
use Prim.Native.String.{compare as compare_texts}
use text.Mathlib.TextEquality.{path_by_compare}
use swing_x.Prelude.{
  ℕ, ◌≤◌, ◌≡◌, refl, inl, inr, true, List, [], ◌∷◌, String, ltb, length, All, All-append, OneOf,
  Bool-cases, arith,
}
use swing_x.Float.{Float}
use swing_x.Core.Layer.{Layer}
use swing_x.Core.Genome.{Features}
use swing_x.Store.Pit.{order_by}
use swing_x.Store.Order.{All-order_by, length-order_by}
use swing_x.Search.Catalog.{FeatureStat, layer_of_key, is_informative}
use swing_x.Search.Backtest.{BarPoint, FeatureWindow}
use swing_x.Search.Observe.{
  Buckets, place, push_value, push_features, push_points, push_windows, stats_of, from_windows,
}

module _ {F : Type 0} (P : String → F → Type 0) where
  -- A bucket has the layer of its key, and each of its values is one of those of the key.
  abbrev pub IsBucket : String × (Layer × List F) → Type 0
  IsBucket (k, (layer, vs)) = (layer ≡ layer_of_key k) × All (P k) vs

  place-IsBucket :
      (o : Ordering) (k : String) (v : F) (b : String × (Layer × List F)) (m rest : Buckets F)
      → compare_texts k b.0 ≡ o
      → P k v
      → IsBucket b
      → All IsBucket m
      → All IsBucket rest
      → All IsBucket (place o k v b m rest)
  place-IsBucket Ordering.lt k v b m rest e p h hs more = ((refl, (p, tt)), (h, hs))
  place-IsBucket Ordering.gt k v b m rest e p h hs more = (h, more)
  place-IsBucket Ordering.eq k v (j, (layer, vs)) m rest e p (l, h) hs more =
      let same = path_by_compare k j e in
      ((l, All-append (P j) vs (v ∷ []) h (rw same at p, tt)), hs)

  push_value-IsBucket :
      (k : String) (v : F) (m : Buckets F)
      → P k v
      → All IsBucket m
      → All IsBucket (push_value k v m)
  unfolding push_value
  push_value-IsBucket k v [] p h = ((refl, (p, tt)), tt)
  push_value-IsBucket k v (b ∷ m) p (h, hs) =
      place-IsBucket (compare_texts k b.0) k v b m (push_value k v m) refl p h hs
        (push_value-IsBucket k v m p hs)

module _ {F : Type 0} ⦃f : Float F⦄ where
  -- The value was observed for the key, at a bar of one of the windows, and is finite.
  pub record IsObserved (windows : List (FeatureWindow F)) (k : String) (v : F) : Type 0 where
    pub window : FeatureWindow F
    pub point : BarPoint F
    pub among : OneOf window windows
    pub at : OneOf point window.points
    pub has : OneOf (k, v) point.features
    pub finite : f.is_finite v ≡ true

  module _ (windows : List (FeatureWindow F)) where
    push_features-IsBucket :
        (w : FeatureWindow F) (p : BarPoint F)
        → OneOf w windows
        → OneOf p w.points
        → (features : Features F) → ((kv : String × F) → OneOf kv features → OneOf kv p.features)
        → (m : Buckets F) → All (IsBucket (IsObserved windows)) m
        → All (IsBucket (IsObserved windows)) (push_features features m)
    unfolding push_features
    push_features-IsBucket w p in_w in_p [] sub m h = h
    push_features-IsBucket w p in_w in_p ((k, v) ∷ features) sub m h =
        elim (Bool-cases (f.is_finite v)) [
          | inr e ↦
              rw e (push_features-IsBucket w p in_w in_p features (λ kv o. sub kv (inr o)) m h)
          | inl e ↦ rw e (
              push_features-IsBucket w p in_w in_p features (λ kv o. sub kv (inr o)) _
                (push_value-IsBucket (IsObserved windows) k v m
                  (record {
                    window = w;
                    point = p;
                    among = in_w;
                    at = in_p;
                    has = sub (k, v) (inl refl);
                    finite = e;
                  })
                  h))
        ]

    push_points-IsBucket :
        (w : FeatureWindow F)
        → OneOf w windows
        → (ps : List (BarPoint F)) → ((p : BarPoint F) → OneOf p ps → OneOf p w.points)
        → (m : Buckets F) → All (IsBucket (IsObserved windows)) m
        → All (IsBucket (IsObserved windows)) (push_points ps m)
    unfolding push_points
    push_points-IsBucket w in_w [] sub m h = h
    push_points-IsBucket w in_w (p ∷ ps) sub m h =
        push_points-IsBucket w in_w ps (λ q o. sub q (inr o)) _
          (push_features-IsBucket w p in_w (sub p (inl refl)) p.features (λ kv o. o) m h)

    push_windows-IsBucket :
        (ws : List (FeatureWindow F))
        → ((w : FeatureWindow F) → OneOf w ws → OneOf w windows)
        → (m : Buckets F) → All (IsBucket (IsObserved windows)) m
        → All (IsBucket (IsObserved windows)) (push_windows ws m)
    unfolding push_windows
    push_windows-IsBucket [] sub m h = h
    push_windows-IsBucket (w ∷ ws) sub m h =
        push_windows-IsBucket ws (λ q o. sub q (inr o)) _
          (push_points-IsBucket w (sub w (inl refl)) w.points (λ p o. o) m h)

    -- A feature of the catalog: it varies, it was observed often enough, and each of its values was observed.
    pub record IsGrounded (min_observations : ℕ) (s : FeatureStat F) : Type 0 where
      pub in_layer : s.layer ≡ layer_of_key s.key
      pub varies : is_informative s ≡ true
      pub often : min_observations ≤ length s.sorted_values
      pub observed : All (IsObserved windows s.key) s.sorted_values

    stats_of-IsGrounded :
        (min_observations : ℕ) (m : Buckets F)
        → All (IsBucket (IsObserved windows)) m
        → All (IsGrounded min_observations) (stats_of min_observations m)
    unfolding stats_of
    stats_of-IsGrounded n [] h = tt
    stats_of-IsGrounded n ((key, (layer, vs)) ∷ m) ((l, h), hs) =
        let stat : FeatureStat F = record {
          key = key;
          layer = layer;
          sorted_values = order_by f.lt vs;
        } in
        let more = stats_of-IsGrounded n m hs in
        elim (Bool-cases (ltb (length vs) n)) [
          | inl e ↦ rw e more
          | inr e ↦ elim (Bool-cases (is_informative stat)) [
            | inr d ↦ rw e (rw d more)
            | inl d ↦ rw e (
                rw d (
                  (record {
                    in_layer = l;
                    varies = d;
                    often =
                        let n_le : n ≤ length vs = ground (arith, e) in
                        rw (length-order_by f.lt vs) n_le;
                    observed = All-order_by f.lt (IsObserved windows key) vs h;
                  }),
                  more,
                ))
          ]
        ]

    -- Every feature of the catalog of some windows has the layer of its key, varies, and has at least as many
    -- observations as asked for, and each of its values was observed: it is the finite value of that feature
    -- at a bar of one of the windows.
    pub from_windows-IsGrounded :
        (min_observations : ℕ)
        → All (IsGrounded min_observations) (from_windows windows min_observations).stats
    unfolding from_windows
    from_windows-IsGrounded n =
        stats_of-IsGrounded n (push_windows windows [])
          (push_windows-IsBucket windows (λ w o. o) [] tt)
