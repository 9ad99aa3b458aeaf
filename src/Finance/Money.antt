-- ===== src/Finance/Money.antt =====
-- finance/money.py: amounts in minor units. `upper` is str.upper(); `Money` keeps its currency in upper
-- case, so that of a value of the record is. A
-- `Decimal` that comes out of a text is a sign, a coefficient and a number of fractional digits.
pub mod Rounding
pub mod Sums
pub mod Parse
use kanna_pa.Prelude.{
  ℕ, ◌+◌, ◌-◌, ◌*◌, ◌/◌, ◌^◌, String, Bool, true, false, List, [], ◌∷◌, any_of, leb, ◌=ₛ◌,
  if◌then◌else◌,
}
use kanna_pa.Prelude.Int.{ℤ, pos, sub_ℕ, ◌+ℤ◌, ◌-ℤ◌, ltb_ℤ, leb_ℤ}

pub record Money : Type 0 where
  pub amount_minor : ℤ
  pub currency : String

pub data Result {ℓ} (A : Type ℓ) : Type ℓ where
  ok : A → Result A
  currency_mismatch invalid_operation : Result A

-- _EXPONENTS.get(currency.upper(), 2)
unfoldable pub exponent_for : (String → String) → String → ℕ
exponent_for upper currency =
    if upper currency =ₛ "JPY"
    then 0
    else if any_of (λ c. c =ₛ upper currency) ("KWD" ∷ "BHD" ∷ [])
    then 3
    else 2

pub record Decimal : Type 0 where
  pub is_negative : Bool
  pub coefficient : ℕ
  pub places : ℕ

-- The greatest coefficient of the default context, of 28 digits, and one more.
abbrev pub precision_limit : ℕ
precision_limit = 10 ^ 28

-- Rounding n / d to the nearest number, a half away from zero.
unfoldable pub round_half_up : ℕ → ℕ → ℕ
round_half_up n d = (2 * n + d) / (2 * d)

-- The coefficient of `amount.quantize(Decimal(1).scaleb(-places))`.
unfoldable pub quantized : Decimal → ℕ → ℕ
unfolding round_half_up
quantized a places =
    if leb a.places places
    then a.coefficient * 10 ^ (places - a.places)
    else round_half_up a.coefficient (10 ^ (a.places - places))

abbrev pub signed : Bool → ℕ → ℤ
signed true n = sub_ℕ 0 n
signed false n = pos n

unfoldable pub from_decimal : (String → String) → Decimal → String → Result Money
from_decimal upper a currency =
    if leb precision_limit (quantized a (exponent_for upper currency))
    then invalid_operation
    else ok (record {
      amount_minor = signed a.is_negative (quantized a (exponent_for upper currency));
      currency = upper currency;
    })

abbrev pub checked : {A : Type 0} → Money → Money → A → Result A
checked a b x = if a.currency =ₛ b.currency then ok x else currency_mismatch

unfoldable pub add : Money → Money → Result Money
add a b =
    checked a b (record { amount_minor = a.amount_minor +ℤ b.amount_minor; currency = a.currency })

unfoldable pub subtract : Money → Money → Result Money
subtract a b =
    checked a b (record { amount_minor = a.amount_minor -ℤ b.amount_minor; currency = a.currency })

unfoldable pub less_than : Money → Money → Result Bool
less_than a b = checked a b (ltb_ℤ a.amount_minor b.amount_minor)

unfoldable pub at_most : Money → Money → Result Bool
at_most a b = checked a b (leb_ℤ a.amount_minor b.amount_minor)

abbrev pub zero_of : (String → String) → String → Money
zero_of upper currency = record { amount_minor = pos 0; currency = upper currency }
