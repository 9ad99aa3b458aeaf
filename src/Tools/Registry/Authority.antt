-- ===== src/Tools/Registry/Authority.antt =====
-- When a tool is executed at all: the order of the checks in `invoke` of core/tools/registry.py.
use mathlib.Core.List.{Memᴰ}
use kanna_pa.Prelude.{
  ℕ, String, ◌≡◌, ◌⊎◌, refl, Bool, true, false, not, ◌&&◌, Option, none, some, List, All, any_of,
  arith, ◌=ₛ◌, if◌then◌else◌, Option-cases, Bool-cases, inl, inr, &&-eq_true, sym, ap, subst, ◌∙◌,
}
use kanna_pa.Value.{Value, bool, Fields, get, or_default, truthy}
use kanna_pa.Permissions.{Decision, allow, require_approval, deny, review, restricted}
use kanna_pa.Permissions.Policy.{
  decide, default_decision, decide-no_match, Skips, default_policy, create_or_overwrite_tools,
}
use kanna_pa.Permissions.Trust.{TrustRule}
use kanna_pa.Permissions.Gate.{trust_store, deny_all, approve, covers}
use kanna_pa.Permissions.Gate.Standing.{approve-trust_store_iff}
use kanna_pa.Tools.Schema.{ValidationError, validate}
use kanna_pa.Tools.Result.{ToolResult}
use kanna_pa.Tools.Registry.{
  Tool, Registry, Context, Services, ok, as_dict, get_tool, decision, permitted, invoke_tool,
  invoke,
}

abbrev granted : Decision → Bool → Bool
granted allow approved = true
granted require_approval approved = approved
granted deny approved = false

abbrev accepts : Option ValidationError → Bool
accepts none = true
accepts (some e) = false

granted-approval : (d : Decision) (b : Bool) → d ≡ require_approval → granted d b ≡ true → b ≡ true
granted-approval allow b e h = cc
granted-approval require_approval b e h = h
granted-approval deny b e h = cc

module _ {W : Type 0} (sv : Services W) (r : Registry W) (t : Tool W) (args : Value) where
  -- The arguments are valid, and the policy allows the call or wants an approval that is given.
  abbrev pub authorised : Bool
  authorised =
      accepts (validate sv.re_match t.input_schema args)
      && granted (decision r t args) (approve r.gate t.name (as_dict args))

  permitted-world :
      (d : Decision) (start : ℕ) (c : Context W)
      → (permitted sv r t d args start c).1.world ≡ (
          if granted d (approve r.gate t.name (as_dict args))
          then (t.execute (as_dict args) c.world).1
          else c.world)
  unfolding permitted
  permitted-world allow start c = refl
  permitted-world deny start c = refl
  permitted-world require_approval start c = ground arith

  invoke_tool-world :
      (c : Context W)
      → (invoke_tool sv r t args c).1.world
        ≡ (if authorised then (t.execute (as_dict args) c.world).1 else c.world)
  unfolding invoke_tool
  invoke_tool-world c = elim (Option-cases (validate sv.re_match t.input_schema args)) [
    | inl valid ↦
        rw (valid, invoke_tool) (permitted-world (decision r t args) (sv.monotonic c.world) c)
    | inr (e, bad) ↦ rw (bad, invoke_tool) refl
  ]

-- A call of a registered name executes the tool exactly if the call is authorised; else the world
-- outside stays as it was.
pub invoke-world :
    {W : Type 0} (sv : Services W) (r : Registry W) (n : String) (args : Value) (c : Context W)
    (t : Tool W) (after : ToolResult × Context W)
    → get_tool r n ≡ ok t
    → invoke sv r n args c ≡ ok after
    → after.1.world
      ≡ (if authorised sv r t args then (t.execute (as_dict args) c.world).1 else c.world)
unfolding invoke
invoke-world {W} sv r n args c t after found e =
    let same : ok (invoke_tool sv r t args c) ≡ ok after = sym (rw (found, invoke)) ∙ e in
    let inner : invoke_tool sv r t args c ≡ after = cc in
    subst
      (λ x.
        x.1.world
        ≡ (if authorised sv r t args then (t.execute (as_dict args) c.world).1 else c.world))
      inner (invoke_tool-world sv r t args c)

module _ {W : Type 0} (sv : Services W) (r : Registry W) (t : Tool W) (args : Value)
    (c : Context W) where
  denied :
      decision r t args ≡ deny
      → ((invoke_tool sv r t args c).1.world ≡ c.world)
        × ((invoke_tool sv r t args c).0.success ≡ false)
  unfolding invoke_tool
  denied e = elim (Option-cases (validate sv.re_match t.input_schema args)) [
    | inl valid ↦
        (rw (valid, invoke_tool, e, permitted) refl, rw (valid, invoke_tool, e, permitted) refl)
    | inr (x, bad) ↦ (rw (bad, invoke_tool) refl, rw (bad, invoke_tool) refl)
  ]

  -- A restricted tool is not executed, and the call fails, unless a rule of the policy applies to it;
  -- no approval changes this.
  pub restricted_never_runs :
      t.permission ≡ restricted
      → All (Skips t.name (as_dict args) t.permission) r.policy
      → ((invoke_tool sv r t args c).1.world ≡ c.world)
        × ((invoke_tool sv r t args c).0.success ≡ false)
  unfolding default_decision
  restricted_never_runs level skips = denied (
      decide-no_match t.name (as_dict args) t.permission r.policy skips ∙ ap default_decision level)

-- The wiring of `bootstrap()` where nobody can be asked.
pub record IsUnattended {W : Type 0} (r : Registry W) (rules : List TrustRule) : Type 0 where
  pub policy : r.policy ≡ default_policy
  pub gate : r.gate ≡ trust_store rules deny_all

abbrev pub creates_new : String → Fields → Bool
creates_new name args =
    any_of (λ n. n =ₛ name) create_or_overwrite_tools
    && not (truthy (or_default (bool false) (get "overwrite" args)))

decide-default :
    (name : String) (args : Fields)
    → decide default_policy name args review
      ≡ (if creates_new name args then allow else require_approval)
unfolding decide default_policy
decide-default name args = refl

-- In an unattended run a review-level call is authorised only if it is one of the tools that create
-- a file and does not ask to overwrite, or if a standing rule of the user covers it.
pub unattended_review :
    {W : Type 0} (sv : Services W) (r : Registry W) (t : Tool W) (args : Value)
    (rules : List TrustRule)
    → IsUnattended r rules
    → t.permission ≡ review
    → authorised sv r t args ≡ true
    → (creates_new t.name (as_dict args) ≡ true)
      ⊎ ((q : TrustRule) × Memᴰ q rules × (covers t.name (as_dict args) q ≡ true))
unattended_review sv r t args rules wiring level h =
    elim (Bool-cases (creates_new t.name (as_dict args))) [
      | inl new ↦ inl new
      | inr other ↦ inr ((approve-trust_store_iff rules t.name (as_dict args)).0 (approved other))
    ]
  where
    decided : creates_new t.name (as_dict args) ≡ false → decision r t args ≡ require_approval
    decided other = rw (wiring.policy, level) (decide-default t.name (as_dict args) ∙ rw other refl)

    approved :
        creates_new t.name (as_dict args) ≡ false
        → approve (trust_store rules deny_all) t.name (as_dict args) ≡ true
    approved other = rw (← wiring.gate) (
        granted-approval (decision r t args) (approve r.gate t.name (as_dict args)) (decided other)
          (&&-eq_true _ _ h).1)
