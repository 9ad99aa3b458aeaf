-- ===== src/Finance/Money/Sums.antt =====
-- Sums and differences of amounts: `__add__`, `__sub__` and the comparisons of `Money`.
use kanna_pa.Prelude.{◌≡◌, ◌≢◌, ◌⊎◌, inl, inr, refl, arith, ◌=ₛ◌, eq_iff, Bool-cases, ap}
use kanna_pa.Prelude.Int.{ℤ, ◌+ℤ◌, ◌-ℤ◌, int_laws}
use kanna_pa.Finance.Money.{Money, Result, ok, currency_mismatch, add, subtract}

add-sub_ℤ : (a b : ℤ) → (a +ℤ b) -ℤ b ≡ a
add-sub_ℤ a b = omega int_laws

-- Adding two amounts fails exactly when their currencies differ; otherwise the sum has that currency,
-- and taking the second amount away from it again gives the first.
pub subtract-add :
    (a b : Money)
    → ((a.currency ≢ b.currency) × (add a b ≡ currency_mismatch))
      ⊎ ((c : Money) × (add a b ≡ ok c) × (c.currency ≡ a.currency) × (subtract c b ≡ ok a))
unfolding add subtract
subtract-add a b = elim (Bool-cases (a.currency =ₛ b.currency)) [
  | inl same ↦ inr (
    record { amount_minor = a.amount_minor +ℤ b.amount_minor; currency = a.currency },
    rw same refl,
    refl,
    rw same (
        ap {A = ℤ} {B = Result Money} (λ n. ok (record { amount_minor = n; currency = a.currency }))
          (add-sub_ℤ a.amount_minor b.amount_minor)),
  )
  | inr other ↦
      inl ((λ e. ground (arith, (eq_iff a.currency b.currency).1 e, other)), rw other refl)
]
