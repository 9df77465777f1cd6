-- ===== src/Store/Tests.antt =====
-- Two bars written to an empty store, and the theorem at them.
use swing_x.Prelude.{ℕ, ◌*◌, ◌≡◌, refl, List, [], ◌∷◌}
use swing_x.Prelude.Int.{pos}
use swing_x.Prelude.Results.{err}
use swing_x.Float.Fixed.{Fixed, num}
use swing_x.Core.Market.{Bar}
use swing_x.Store.{
  Tables, upsert, upsert_all, repeats, execute, in_chunks, upsert_bars, same_row_twice,
}
use swing_x.Store.Pit.{bars_for, insert_sorted, order_by}

abbrev empty : Tables Fixed
empty = record { bars = []; features = []; macros = []; regimes = [] }

abbrev bar : ℕ → Bar Fixed
bar ts = record {
  ticker = "SPY";
  ts = ts;
  open_px = num (pos (ts * 100));
  high = num (pos (ts * 100));
  low = num (pos (ts * 100));
  close = num (pos (ts * 100));
  volume = num (pos 100);
}

abbrev batch : List (Bar Fixed)
batch = bar 2 ∷ bar 1 ∷ []

-- The read gives what is known at its time, oldest first.
read_back :
    bars_for (upsert_bars batch "daily" "fmp" empty).0 5 "SPY" "daily" 10 ≡ bar 1 ∷ bar 2 ∷ []
unfolding bars_for order_by insert_sorted upsert_bars in_chunks execute repeats upsert_all upsert
read_back = refl

twice : (upsert_bars (bar 1 ∷ bar 1 ∷ []) "daily" "fmp" empty).1 ≡ err same_row_twice
unfolding upsert_bars in_chunks execute repeats
twice = refl
