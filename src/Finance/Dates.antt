-- ===== src/Finance/Dates.antt =====
-- finance/dates.py. `datetime.strptime` is a parameter: the date of a text in a format, none where it
-- raises ValueError.
use kanna_pa.Prelude.{String, Option, none, some, List, [], ◌∷◌}
use kanna_pa.Planner.RuleBased.{strip_text}
use kanna_pa.Finance.Recurring.{Date}

-- `_FORMATS`
abbrev pub formats : List String
formats =
    "%Y-%m-%d" ∷ "%d/%m/%Y" ∷ "%m/%d/%Y" ∷ "%d-%m-%Y" ∷ "%B %d, %Y" ∷ "%b %d, %Y" ∷ "%d %B %Y"
    ∷ "%d %b %Y" ∷ []

module _ (strptime : String → String → Option Date) where
  -- The first format that fits.
  unfoldable pub first_format : String → List String → Option Date
  first_format text [] = none
  first_format text (f ∷ fs) = elim (strptime text f) [
    | some d ↦ some d
    | none ↦ first_format text fs
  ]

  -- None stands for the ValueError.
  unfoldable pub normalize_date : String → Option Date
  unfolding first_format
  normalize_date raw = first_format (strip_text raw) formats
