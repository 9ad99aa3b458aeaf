-- ===== src/Finance/Imports/Receipt.antt =====
-- finance/imports/receipt.py. What the provider reads off a receipt is an argument, none where it
-- raises.
use kanna_pa.Prelude.{String, ◌<>◌, Option, none, some, List, [], ◌∷◌, ◌++◌, ◌=ₛ◌, if◌then◌else◌}
use kanna_pa.Finance.Money.{Money}
use kanna_pa.Finance.Money.Parse.{Parsed, money, invalid_amount, escaped, parse}
use kanna_pa.Finance.Recurring.{Date}
use kanna_pa.Finance.Dates.{normalize_date}
use kanna_pa.Finance.Models.{Transaction}
use kanna_pa.Finance.Categories.{find_category_for_keyword}
use kanna_pa.Finance.Books.{Books}
use kanna_pa.Finance.Imports.{Library, ImportResult, no_result, with_error, store}
use kanna_pa.Finance.Imports.Statement.{Imported, done, raised, present, or_text, by_keyword}

-- `ReceiptExtraction` of vision/document/base.py, less what the import does not use
pub record ReceiptExtraction : Type 0 where
  pub merchant : Option String
  pub date_text : Option String
  pub currency_code : Option String
  pub total_amount_text : Option String
  pub notes : String

-- "; ".join(parts) or None
unfoldable pub join_notes : List String → Option String
join_notes [] = none
join_notes (x ∷ []) = some x
join_notes (x ∷ y ∷ xs) = elim (join_notes (y ∷ xs)) [
  | none ↦ some x
  | some rest ↦ some (x <> "; " <> rest)
]

abbrev own_notes : String → List String
own_notes notes = if notes =ₛ "" then [] else notes ∷ []

module _ (lib : Library) (default_currency source : String) (today : Date) where
  -- The date of the receipt, and what is noted where it is not its own.
  abbrev dated_parts : Option String → Date × List String
  dated_parts none = (today, "no date found on receipt; used today's date" ∷ [])
  dated_parts (some text) = elim (normalize_date lib.strptime text) [
    | some day ↦ (day, [])
    | none ↦ (today, ("could not parse receipt date " <> text <> "; used today's date") ∷ [])
  ]

  abbrev drawn_up : ReceiptExtraction → Money → Transaction
  drawn_up x m =
      let (day, parts) = dated_parts (present x.date_text) in
      record {
        amount_minor = m.amount_minor;
        currency = m.currency;
        occurred_at = day;
        category_id = none;
        merchant = x.merchant;
        description = none;
        source = source;
        notes = join_notes (parts ++ own_notes x.notes);
      }

  abbrev finished : ImportResult × Books → Imported
  finished (r, b) = done r b

  abbrev with_parsed : ReceiptExtraction → String → Books → Parsed → Imported
  with_parsed x text b (money m) = finished (
      store lib.digest
        (by_keyword lib default_currency source today (present x.merchant) (drawn_up x m) b)
        (no_result, b))
  with_parsed x text b invalid_amount =
      done (with_error 1 ("could not parse total amount " <> text) no_result) b
  with_parsed x text b escaped = raised b

  -- `import_receipt`, with the date of today resolved
  unfoldable pub import_receipt : Option ReceiptExtraction → Books → Imported
  unfolding parse normalize_date join_notes store find_category_for_keyword
  import_receipt none b = done (with_error 1 "vision provider failed" no_result) b
  import_receipt (some x) b = elim (present x.total_amount_text) [
    | none ↦ done (with_error 1 "could not find a total amount on the receipt" no_result) b
    | some text ↦
        with_parsed x text b
          (parse lib.texts text (or_text (present x.currency_code) default_currency))
  ]
