-- ===== src/Finance/Analytics.antt =====
-- finance/analytics.py: `_group_by_currency`, over the transactions that a query has given. A dict is
-- an association list in the order in which its keys were first set.
pub mod Totals
use kanna_pa.Prelude.{String, Bool, Option, none, some, List, [], ◌∷◌, ◌=ₛ◌, if◌then◌else◌}
use kanna_pa.Prelude.Int.{ℤ, pos, ◌+ℤ◌}
use kanna_pa.Finance.Money.{Money}
use kanna_pa.Finance.Models.{Transaction}

-- totals[currency] += amount, on a defaultdict(int)
unfoldable pub add_amount : List Money → String → ℤ → List Money
add_amount [] currency amount = record { amount_minor = pos 0 +ℤ amount; currency = currency } ∷ []
add_amount (m ∷ totals) currency amount =
    let rest = add_amount totals currency amount in
    if m.currency =ₛ currency
    then record { amount_minor = m.amount_minor +ℤ amount; currency = m.currency } ∷ totals
    else m ∷ rest

-- The loop over the transactions.
unfoldable pub group_from : List Money → List Transaction → List Money
unfolding add_amount
group_from totals [] = totals
group_from totals (tx ∷ txs) = group_from (add_amount totals tx.currency tx.amount_minor) txs

unfoldable pub group_by_currency : List Transaction → List Money
unfolding group_from
group_by_currency txs = group_from [] txs

-- totals.get(currency)
unfoldable pub total_in : String → List Money → Option ℤ
total_in c [] = none
total_in c (m ∷ totals) = if m.currency =ₛ c then some m.amount_minor else total_in c totals
