-- ===== src/Finance/Analytics/Totals.antt =====
-- What the totals by currency are, whatever the order of the transactions.
use mathlib.Core.List.{Permᴰ}
use kanna_pa.Prelude.{
  ◌≡◌, refl, sym, ◌∙◌, ap, arith, String, Bool, true, false, Option, none, some, List, [], ◌∷◌,
  ◌=ₛ◌, eq_iff, if◌then◌else◌, any_of, ◌||◌,
}
use kanna_pa.Prelude.Int.{ℤ, pos, ◌+ℤ◌, +ℤ_zero, zero_+ℤ, int_laws}
use kanna_pa.Finance.Money.{Money}
use kanna_pa.Finance.Models.{Transaction}
use kanna_pa.Finance.Analytics.{add_amount, group_from, group_by_currency, total_in}

-- The sum of the amounts in one currency.
abbrev pub sum_in : String → List Transaction → ℤ
sum_in c [] = pos 0
sum_in c (tx ∷ txs) = if tx.currency =ₛ c then tx.amount_minor +ℤ sum_in c txs else sum_in c txs

abbrev pub occurs : String → List Transaction → Bool
occurs c txs = any_of (λ tx. tx.currency =ₛ c) txs

abbrev pub plus : Option ℤ → ℤ → ℤ
plus none n = pos 0 +ℤ n
plus (some m) n = m +ℤ n

total_in-add_amount :
    (totals : List Money) (c currency : String) (amount : ℤ)
    → total_in c (add_amount totals currency amount)
      ≡ (if currency =ₛ c then some (plus (total_in c totals) amount) else total_in c totals)
unfolding total_in add_amount
total_in-add_amount [] c currency amount = refl
total_in-add_amount (m ∷ totals) c currency amount = ground (
  arith,
  total_in-add_amount totals c currency amount,
  eq_iff m.currency currency,
  eq_iff m.currency c,
  eq_iff currency c,
)

sum_in-absent : (c : String) (txs : List Transaction) → occurs c txs ≡ false → sum_in c txs ≡ pos 0
sum_in-absent c [] h = refl
sum_in-absent c (tx ∷ txs) h = ground (arith, sum_in-absent c txs, h)

plus_assoc : (t : Option ℤ) (a b : ℤ) → plus t (a +ℤ b) ≡ plus t a +ℤ b
plus_assoc none a b = omega int_laws
plus_assoc (some m) a b = omega int_laws

plus_zero : (t : Option ℤ) (a : ℤ) → plus t (a +ℤ pos 0) ≡ plus t a
plus_zero t a = ap (plus t) (+ℤ_zero a)

total_in-group_from :
    (txs : List Transaction) (totals : List Money) (c : String)
    → total_in c (group_from totals txs)
      ≡ (if occurs c txs then some (plus (total_in c totals) (sum_in c txs)) else total_in c totals)
unfolding group_from
total_in-group_from [] totals c = refl
total_in-group_from (tx ∷ txs) totals c =
    total_in-group_from txs (add_amount totals tx.currency tx.amount_minor) c
    ∙ rw (total_in-add_amount totals c tx.currency tx.amount_minor)
        (step (tx.currency =ₛ c) (occurs c txs) refl)
  where
    T : Option ℤ
    T = total_in c totals

    step :
        (same later : Bool)
        → occurs c txs ≡ later
        → (if later
            then some (plus (if same then some (plus T tx.amount_minor) else T) (sum_in c txs))
            else (if same then some (plus T tx.amount_minor) else T))
          ≡ (if same || later
              then some (plus T (if same then tx.amount_minor +ℤ sum_in c txs else sum_in c txs))
              else T)
    step true true e = ap some (sym (plus_assoc T tx.amount_minor (sum_in c txs)))
    step true false e = rw (sum_in-absent c txs e) (ap some (sym (plus_zero T tx.amount_minor)))
    step false true e = refl
    step false false e = refl

-- The total of each currency is the sum of the amounts in it, and a currency without transactions has
-- no total.
pub total_in-group_by_currency :
    (txs : List Transaction) (c : String)
    → total_in c (group_by_currency txs) ≡ (if occurs c txs then some (sum_in c txs) else none)
unfolding group_by_currency total_in
total_in-group_by_currency txs c = total_in-group_from txs [] c ∙ rw (zero_+ℤ (sum_in c txs)) refl

+ℤ_left_comm : (a b s : ℤ) → a +ℤ (b +ℤ s) ≡ b +ℤ (a +ℤ s)
+ℤ_left_comm a b s = omega int_laws

sum_in-swap :
    (c : String) (a b : Transaction) (txs : List Transaction)
    → sum_in c (a ∷ b ∷ txs) ≡ sum_in c (b ∷ a ∷ txs)
sum_in-swap c a b txs = ground (arith, +ℤ_left_comm a.amount_minor b.amount_minor (sum_in c txs))

-- What the totals are made of is the same for a permutation.
abbrev Agree : String → List Transaction → List Transaction → Type 0
Agree c xs ys = (sum_in c xs ≡ sum_in c ys) × (occurs c xs ≡ occurs c ys)

Agree-Perm : (c : String) {xs ys : List Transaction} → Permᴰ xs ys → Agree c xs ys
Agree-Perm c Permᴰ.nil = (refl, refl)
Agree-Perm c (Permᴰ.cons e p) = let (s, o) = Agree-Perm c p in (rw (e, s) refl, rw (e, o) refl)
Agree-Perm c (Permᴰ.swap {a} {b} {a'} {b'} {l} e f) =
    (rw (e, f) (sum_in-swap c b' a' l), rw (e, f) (ground arith))
Agree-Perm c (Permᴰ.trans p q) =
    let (s, o) = Agree-Perm c p in let (s', o') = Agree-Perm c q in (s ∙ s', o ∙ o')

-- The totals do not depend on the order of the transactions.
pub group_by_currency-Perm :
    {txs others : List Transaction} (c : String)
    → Permᴰ txs others
    → total_in c (group_by_currency txs) ≡ total_in c (group_by_currency others)
group_by_currency-Perm {txs} {others} c p =
    let (s, o) = Agree-Perm c p in
    total_in-group_by_currency txs c ∙ rw (s, o) (sym (total_in-group_by_currency others c))
