-- ===== src/Core/Ticker.antt =====
-- crates/se-core/src/ticker.rs, on the bytes of the symbol. The other files take a ticker as its text.
use swing_x.Prelude.{
  ℕ, ◌-◌, Bool, not, ◌&&◌, ◌||◌, List, [], ◌∷◌, leb, ◌==◌, if◌then◌else◌, length, all, any,
  is_empty, String, str_eq,
}
use swing_x.Prelude.Results.{Result, ok, err}
use mathlib.Core.List.{reverse}

-- The symbol, without the padding of its buffer.
pub record Ticker : Type 0 where
  pub bytes : List ℕ

pub data TickerError : Type 0 where
  unknown_ticker : List ℕ → TickerError

abbrev pub max_len : ℕ
max_len = 15

-- ASCII white space, which is all that `trim` meets in ASCII text.
abbrev pub is_space : ℕ → Bool
is_space c = c == 32 || (leb 9 c && leb c 13)

abbrev pub trim_start : List ℕ → List ℕ
trim_start [] = []
trim_start (c ∷ cs) = let rest = trim_start cs in if is_space c then rest else c ∷ cs

abbrev pub trim : List ℕ → List ℕ
trim s = reverse (trim_start (reverse (trim_start s)))

abbrev pub to_upper : ℕ → ℕ
to_upper c = if leb b'a' c && leb c b'z' then c - 32 else c

abbrev pub to_ascii_uppercase : List ℕ → List ℕ
to_ascii_uppercase [] = []
to_ascii_uppercase (c ∷ cs) = to_upper c ∷ to_ascii_uppercase cs

abbrev pub is_symbol_byte : ℕ → Bool
is_symbol_byte c =
    (leb b'A' c && leb c b'Z') || ((leb b'0' c && leb c b'9') || (c == b'.' || c == b'-'))

abbrev pub is_symbol : List ℕ → Bool
is_symbol up = not (is_empty up) && (leb (length up) max_len && all is_symbol_byte up)

unfoldable pub new : List ℕ → Result TickerError Ticker
new s =
    let up = to_ascii_uppercase (trim s) in
    if is_symbol up then ok (record { bytes = up }) else err (unknown_ticker s)

abbrev pub as_bytes : Ticker → List ℕ
as_bytes t = t.bytes

-- The universe of the ETF scanner, as texts.
abbrev pub all_tickers : List String
all_tickers = "SPY" ∷ "QQQ" ∷ "IWM" ∷ "DIA" ∷ "XLF" ∷ "XLK" ∷ "XLE" ∷ "SMH" ∷ "XLV" ∷ "XLU" ∷ []

abbrev pub broad : List String
broad = "SPY" ∷ "QQQ" ∷ "IWM" ∷ "DIA" ∷ []

abbrev pub benchmark : String
benchmark = "SPY"

abbrev pub is_broad_index : String → Bool
is_broad_index t = any (λ x. str_eq x t) broad

abbrev pub is_etf : String → Bool
is_etf t = any (λ x. str_eq x t) all_tickers
