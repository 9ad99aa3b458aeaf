-- ===== src/Permissions/Trust/Matching.antt =====
-- Which calls a trust rule covers: `rule_matches` of core/permissions/trust.py.
use kanna_pa.Prelude.{
  String, ◌≡◌, refl, ◌≢◌, ◌↔◌, true, none, arith, ◌=ₛ◌, eq_iff, Bool-cases, inl, inr,
}
use kanna_pa.Value.{Value, null, Fields, end, field, get, or_null, eq_value, HasItem, here, there}
use kanna_pa.Permissions.Trust.{pattern_matches, rule_matches}

abbrev pub Lacks : String → Fields → Type 0
Lacks k end = Unit
Lacks k (field j v fs) = (j ≢ k) × Lacks k fs

-- What a call must have for each item of the pattern.
abbrev pub Agrees : Fields → String → Value → Type 0
Agrees args k v = eq_value (or_null (get k args)) v ≡ true

pattern_matches-Agrees :
    (pattern args : Fields)
    → pattern_matches pattern args ≡ true
    → (k : String) (v : Value) → HasItem k v pattern
    → Agrees args k v
unfolding pattern_matches
pattern_matches-Agrees end args h k v m = elim m [ ]
pattern_matches-Agrees (field j w pattern) args h k v here = ground arith
pattern_matches-Agrees (field j w pattern) args h k v (there m) =
    pattern_matches-Agrees pattern args (ground arith) k v m

Agrees-pattern_matches :
    (pattern args : Fields)
    → ((k : String) (v : Value) → HasItem k v pattern → Agrees args k v)
    → pattern_matches pattern args ≡ true
unfolding pattern_matches
Agrees-pattern_matches end args h = refl
Agrees-pattern_matches (field j w pattern) args h =
    ground (arith, h j w here, Agrees-pattern_matches pattern args (λ k v m. h k v (there m)))

-- A rule covers a call exactly when it names the call's tool and, for each item of its pattern, the
-- call's value at that key (None if it has none) equals the item's value.
pub rule_matches_iff :
    (tool : String) (pattern : Fields) (call : String) (args : Fields)
    → (rule_matches tool pattern call args ≡ true)
      ↔ ((tool ≡ call) × ((k : String) (v : Value) → HasItem k v pattern → Agrees args k v))
unfolding rule_matches
rule_matches_iff tool pattern call args = (
  λ h. elim (Bool-cases (tool =ₛ call)) [
    | inl same ↦
        ((eq_iff tool call).0 same, pattern_matches-Agrees pattern args (ground (arith, same)))
    | inr other ↦ absurd (ground (arith, other, h))
  ],
  λ (same, agrees).
      ground (arith, (eq_iff tool call).1 same, Agrees-pattern_matches pattern args agrees),
)

pattern-extra :
    (pattern args : Fields) (k : String) (v : Value)
    → Lacks k pattern
    → pattern_matches pattern (field k v args) ≡ pattern_matches pattern args
unfolding pattern_matches
pattern-extra end args k v l = refl
pattern-extra (field j w pattern) args k v l =
    ground (arith, pattern-extra pattern args k v l.1, eq_iff k j, l.0)

-- An argument that the pattern does not name changes nothing.
pub rule_matches_extra :
    (tool : String) (pattern : Fields) (call : String) (args : Fields) (k : String) (v : Value)
    → Lacks k pattern
    → rule_matches tool pattern call (field k v args) ≡ rule_matches tool pattern call args
unfolding rule_matches
rule_matches_extra tool pattern call args k v l = ground (arith, pattern-extra pattern args k v l)

-- An item of the pattern whose value is None is met by a call that lacks the key.
pub rule_matches_null :
    (tool : String) (pattern args : Fields) (k : String)
    → get k args ≡ none
    → rule_matches tool (field k null pattern) tool args ≡ rule_matches tool pattern tool args
unfolding rule_matches pattern_matches eq_value
rule_matches_null tool pattern args k h = ground (arith, h)
