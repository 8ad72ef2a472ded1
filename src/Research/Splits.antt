-- ===== src/Research/Splits.antt =====
-- The research splits of research/splits.py over the windows of research/models.py. A date is the
-- number of its year, month and day, YYYYMMDD, which orders dates as Python does.
pub mod Windows
use a_share_analysis.Common.{
  ℕ, String, Bool, true, false, ◌&&◌, Option, none, some, List, [], ◌∷◌, Result, ok, err, ◌>>=◌,
  ◌>>◌, guard, leb, ltb, str_eq, Text, if◌then◌else◌,
}

pub data ResearchSplit : Type 0 where
  development validation_a holdout warmup outside_window : ResearchSplit

-- Every ResearchPanelError that the functions raise
pub data ResearchPanelError : Type 0 where
  invalid_iso_date not_date_like unknown_split : ResearchPanelError
  not_readable : ResearchSplit → ResearchPanelError
  outside_split : ℕ → ResearchSplit → ResearchPanelError

-- A value for a date: a date, a datetime with its date, a text, or anything else
pub data DateLike : Type 0 where
  date datetime : ℕ → DateLike
  text : Text → DateLike
  other : DateLike

pub record Window : Type 0 where
  pub split : ResearchSplit
  pub start : ℕ
  pub end : ℕ

-- _SPLIT_WINDOWS
abbrev pub split_windows : List Window
split_windows =
    record { split = development; start = 20200101; end = 20231231 }
    ∷ record { split = validation_a; start = 20240101; end = 20251231 }
    ∷ record { split = holdout; start = 20260101; end = 20260630 }
    ∷ []

abbrev parsed : Option ℕ → Result ResearchPanelError ℕ
parsed none = err invalid_iso_date
parsed (some d) = ok d

-- `start <= trade_date <= end`
unfoldable pub within : ℕ → Window → Bool
within d w = leb w.start d && leb d w.end

-- the loop over the windows, and `otherwise` behind it
assigned : ℕ → List Window → ResearchSplit → ResearchSplit
unfolding within
assigned d [] otherwise = otherwise
assigned d (w ∷ windows) otherwise =
    let later = assigned d windows otherwise in if within d w then w.split else later

unfoldable pub assign_date : ℕ → ResearchSplit
unfolding assigned
assign_date d = assigned d split_windows (if ltb d 20200101 then warmup else outside_window)

-- split_windows()[split]
unfoldable pub window_of : ResearchSplit → Result ResearchPanelError (ℕ × ℕ)
window_of development = ok (20200101, 20231231)
window_of validation_a = ok (20240101, 20251231)
window_of holdout = ok (20260101, 20260630)
window_of split = err (not_readable split)

-- ResearchSplit | str
pub data SplitValue : Type 0 where
  member : ResearchSplit → SplitValue
  value : String → SplitValue

-- ResearchSplit(split)
unfoldable pub research_split : SplitValue → Result ResearchPanelError ResearchSplit
research_split (member split) = ok split
research_split (value v) =
    if str_eq v "development"
    then ok development
    else if str_eq v "validation_a"
    then ok validation_a
    else if str_eq v "holdout"
    then ok holdout
    else if str_eq v "warmup"
    then ok warmup
    else if str_eq v "outside_window"
    then ok outside_window
    else err unknown_split

unfoldable pub split_window : SplitValue → Result ResearchPanelError (ℕ × ℕ)
unfolding research_split window_of
split_window split = do normalized ← research_split split; window_of normalized

-- `from_iso` is date.fromisoformat, with none for its ValueError.
module _ (from_iso : Text → Option ℕ) where
  unfoldable pub parse_date_value : DateLike → Result ResearchPanelError ℕ
  parse_date_value (date d) = ok d
  parse_date_value (datetime d) = ok d
  parse_date_value (text t) = parsed (from_iso t)
  parse_date_value other = err not_date_like

  unfoldable pub assign_research_split : DateLike → Result ResearchPanelError ResearchSplit
  assign_research_split v = do trade_date ← parse_date_value v; ok (assign_date trade_date)

  -- the window is looked up before the test, and the error names the split
  unfoldable pub assert_research_split_date : DateLike → SplitValue → Result ResearchPanelError ℕ
  assert_research_split_date v split = do
    trade_date ← parse_date_value v
    normalized ← research_split split
    (start, end) ← window_of normalized
    guard (leb start trade_date && leb trade_date end) (outside_split trade_date normalized)
    ok trade_date
