-- ===== src/Finance/Money/Parse.antt =====
-- `Money.parse` and the texts of amounts in finance/money.py. What the regular expressions find and
-- what `Decimal` reads are parameters.
use Prim.Native.Char.{code}
use kanna_pa.Prelude.{
  ℕ, String, Bool, false, ◌||◌, Option, none, some, List, [], ◌∷◌, any_of, ◌==◌, ◌=ₛ◌,
  if◌then◌else◌,
}
use kanna_pa.Planner.RuleBased.{strip_text}
use kanna_pa.Finance.Money.{
  Money, Result, ok, currency_mismatch, invalid_operation, Decimal, from_decimal,
}

-- `_SYMBOL_TO_CURRENCY`: the signs of rupee, dollar, euro, pound and yen
abbrev pub symbols : List (ℕ × String)
symbols = (0x20b9, "INR") ∷ (0x24, "USD") ∷ (0x20ac, "EUR") ∷ (0xa3, "GBP") ∷ (0xa5, "JPY") ∷ []

-- The keys of `_EXPONENTS`.
abbrev pub known_currencies : List String
known_currencies = "INR" ∷ "USD" ∷ "EUR" ∷ "GBP" ∷ "JPY" ∷ "KWD" ∷ "BHD" ∷ []

unfoldable pub has_char : ℕ → String → Bool
has_char n String.[] = false
has_char n (String.◌∷◌ c s) = code c == n || has_char n s

-- text.replace(symbol, "")
unfoldable pub drop_char : ℕ → String → String
drop_char n String.[] = String.[]
drop_char n (String.◌∷◌ c s) =
    let rest = drop_char n s in if code c == n then rest else String.◌∷◌ c rest

-- `leading_code` gives the three letters that stand first, in upper case, and the text behind them;
-- `find_amount` the first number, without commas; `decimal` reads it, none for InvalidOperation; `upper`
-- is str.upper().
pub record Texts : Type 0 where
  pub leading_code : String → Option (String × String)
  pub find_amount : String → Option String
  pub decimal : String → Option Decimal
  pub upper : String → String

pub data Parsed : Type 0 where
  money : Money → Parsed
  -- InvalidMoneyAmount, and an InvalidOperation that leaves the function
  invalid_amount escaped : Parsed

-- The loop over the symbols: the currency, and the text without the symbol.
unfoldable pub split_symbol : List (ℕ × String) → String → Option (String × String)
unfolding has_char drop_char
split_symbol [] text = none
split_symbol ((n, currency) ∷ rest) text =
    let later = split_symbol rest text in
    if has_char n text then some (currency, drop_char n text) else later

module _ (t : Texts) where
  -- The branch of the loop that was not left.
  abbrev split_code : String → String → String × String
  split_code text default_currency = elim (t.leading_code (strip_text text)) [
    | none ↦ (default_currency, text)
    | some (letters, rest) ↦
        if any_of (λ c. c =ₛ letters) known_currencies
        then (letters, rest)
        else (default_currency, text)
  ]

  unfoldable pub split_currency : String → String → String × String
  unfolding split_symbol
  split_currency text default_currency = elim (split_symbol symbols text) [
    | some found ↦ found
    | none ↦ split_code text default_currency
  ]

  abbrev of_result : Result Money → Parsed
  of_result (ok m) = money m
  of_result currency_mismatch = escaped
  of_result invalid_operation = escaped

  abbrev of_number : Option Decimal → String → Parsed
  of_number none currency = invalid_amount
  of_number (some d) currency = of_result (from_decimal t.upper d currency)

  unfoldable pub parse : String → String → Parsed
  unfolding split_currency
  parse text default_currency =
      let (currency, rest) = split_currency (strip_text text) default_currency in
      elim (t.find_amount rest) [
        | none ↦ invalid_amount
        | some raw ↦ of_number (t.decimal raw) currency
      ]
