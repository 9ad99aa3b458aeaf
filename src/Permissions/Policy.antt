-- ===== src/Permissions/Policy.antt =====
-- core/permissions/policy.py, and the default rule of core/bootstrap.py.
use kanna_pa.Prelude.{
  String, ◌≡◌, Bool, true, false, ◌&&◌, not, List, [], ◌∷◌, ◌++◌, All, any_of, arith, ◌=ₛ◌,
  if◌then◌else◌, refl,
}
use kanna_pa.Value.{Fields, get, or_default, truthy, bool}
use kanna_pa.Permissions.{
  PermissionLevel, Decision, low, review, restricted, allow, require_approval, deny,
}

-- A rule's name is only logged.
pub record Rule : Type 0 where
  pub predicate : String → Fields → Bool
  pub decision : Decision

unfoldable pub default_decision : PermissionLevel → Decision
default_decision low = allow
default_decision review = require_approval
default_decision restricted = deny

-- `PermissionPolicy.decide`: the rules in order, then the default for the level.
unfoldable pub decide : List Rule → String → Fields → PermissionLevel → Decision
unfolding default_decision
decide [] name args level = default_decision level
decide (r ∷ rules) name args level =
    if r.predicate name args then r.decision else decide rules name args level

unfoldable pub add_rule : List Rule → Rule → List Rule
add_rule rules r = rules ++ r ∷ []

-- `_CREATE_OR_OVERWRITE_TOOLS` of core/bootstrap.py
abbrev pub create_or_overwrite_tools : List String
create_or_overwrite_tools =
    "fs_write_file" ∷ "document_generate_docx" ∷ "document_generate_pptx" ∷ "document_generate_pdf"
    ∷ "document_convert_to_pdf" ∷ "project_scaffold" ∷ []

abbrev pub creates_only : Rule
creates_only = record {
  predicate = λ name args.
      any_of (λ t. t =ₛ name) create_or_overwrite_tools
      && not (truthy (or_default (bool false) (get "overwrite" args)));
  decision = allow;
}

unfoldable pub default_policy : List Rule
unfolding add_rule
default_policy = add_rule [] creates_only

module _ (name : String) (args : Fields) (level : PermissionLevel) where
  abbrev pub Skips : Rule → Type 0
  Skips r = r.predicate name args ≡ false

  -- The first rule that applies decides, whatever stands behind it and whatever the level.
  pub decide-first_match :
      (before : List Rule) (r : Rule) (behind : List Rule)
      → All Skips before
      → r.predicate name args ≡ true
      → decide (before ++ r ∷ behind) name args level ≡ r.decision
  unfolding decide
  decide-first_match [] r behind skips h = ground arith
  decide-first_match (b ∷ before) r behind skips h =
      ground (arith, decide-first_match before r behind skips.1 h)

  -- Where no rule applies the level decides alone.
  pub decide-no_match :
      (rules : List Rule) → All Skips rules → decide rules name args level ≡ default_decision level
  unfolding decide
  decide-no_match [] skips = refl
  decide-no_match (r ∷ rules) skips = ground (arith, decide-no_match rules skips.1)

  -- A rule that is added last changes only what the earlier rules left to the level.
  pub decide-add_rule :
      (rules : List Rule) (r : Rule)
      → decide (add_rule rules r) name args level ≡ (
          if any_of (λ q. q.predicate name args) rules
          then decide rules name args level
          else if r.predicate name args
          then r.decision
          else default_decision level)
  unfolding decide add_rule
  decide-add_rule [] r = refl
  decide-add_rule (q ∷ rules) r = ground (arith, decide-add_rule rules r)
