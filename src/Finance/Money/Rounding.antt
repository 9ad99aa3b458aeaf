-- ===== src/Finance/Money/Rounding.antt =====
-- What `Money.from_decimal` makes of an amount.
use native.Mathlib.Nat.{pow-suc}
use kanna_pa.Prelude.{
  ℕ, zero, suc, ◌+◌, ◌-◌, ◌*◌, ◌^◌, ◌≤◌, ◌<◌, ◌≡◌, ◌⊎◌, inl, inr, refl, String, arith, leb,
  if◌then◌else◌, Bool-cases,
}
use kanna_pa.Finance.Money.{
  ok, invalid_operation, exponent_for, Decimal, precision_limit, round_half_up, quantized, signed,
  from_decimal,
}

-- n / d lies within half of it, and less than half above it.
round_half_up-near :
    (n d : ℕ)
    → 0 < d
    → (2 * n < 2 * (round_half_up n d * d) + d) × (2 * (round_half_up n d * d) ≤ 2 * n + d)
unfolding round_half_up
round_half_up-near n d pos = grind arith

ten_pow-pos : (k : ℕ) → 0 < 10 ^ k
ten_pow-pos zero = omega arith
ten_pow-pos (suc k) = omega (arith, ten_pow-pos k, pow-suc 10 k)

-- The number of minor units: exact where the currency has as many places as the amount, else the
-- nearest, a half being taken up.
pub record IsRounded (a : Decimal) (places units : ℕ) : Type 0 where
  pub exact : a.places ≤ places → units ≡ a.coefficient * 10 ^ (places - a.places)
  pub above :
      places < a.places
      → 2 * a.coefficient < 2 * (units * 10 ^ (a.places - places)) + 10 ^ (a.places - places)
  pub under :
      places < a.places
      → 2 * (units * 10 ^ (a.places - places)) ≤ 2 * a.coefficient + 10 ^ (a.places - places)

quantized-IsRounded : (a : Decimal) (places : ℕ) → IsRounded a places (quantized a places)
unfolding quantized
quantized-IsRounded a places =
    let (up, down) =
      round_half_up-near a.coefficient (10 ^ (a.places - places))
        (ten_pow-pos (a.places - places)) in
    record {
      exact = λ le. ground arith;
      above = λ lt. ground (arith, up);
      under = λ lt. ground (arith, down);
    }

within_limit :
    {A : Type 0} (units : ℕ) (x : A)
    → ((precision_limit ≤ units)
        × ((if leb precision_limit units then invalid_operation else ok x) ≡ invalid_operation))
      ⊎ ((units < precision_limit)
          × ((if leb precision_limit units then invalid_operation else ok x) ≡ ok x))
within_limit units x = elim (Bool-cases (leb precision_limit units)) [
  | inl e ↦ inl (ground (arith, e), rw e refl)
  | inr e ↦ inr (ground (arith, e), rw e refl)
]

-- An amount is rounded to the minor units of the currency in upper case, to the nearest and a half
-- away from zero, with its sign kept and its currency in upper case; it raises exactly when the
-- rounded number has more than 28 digits.
pub from_decimal-IsRounded :
    (upper : String → String) (a : Decimal) (currency : String)
    → (units : ℕ) × IsRounded a (exponent_for upper currency) units
      × (((precision_limit ≤ units) × (from_decimal upper a currency ≡ invalid_operation))
          ⊎ ((units < precision_limit)
              × (from_decimal upper a currency
                  ≡ ok (record {
                    amount_minor = signed a.is_negative units;
                    currency = upper currency;
                  }))))
unfolding from_decimal
from_decimal-IsRounded upper a currency = (
  quantized a (exponent_for upper currency),
  quantized-IsRounded a (exponent_for upper currency),
  within_limit (quantized a (exponent_for upper currency)) _,
)
