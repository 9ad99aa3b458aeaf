-- ===== src/Tools/Registry/Audit.antt =====
-- What every call leaves behind, and what a success means: `invoke` and `_finish` of
-- core/tools/registry.py.
use kanna_pa.Prelude.{
  ℕ, String, ◌≡◌, refl, true, Option, none, some, [], ◌∷◌, ◌++◌, arith, if◌then◌else◌, Option-cases,
  if_ind, sym, ap, subst, ◌∙◌, ◌-◌, inl, inr,
}
use kanna_pa.Value.{Value, obj}
use kanna_pa.Events.{executed}
use kanna_pa.Permissions.{Decision, allow, require_approval, deny}
use kanna_pa.Permissions.Gate.{approve}
use kanna_pa.Tools.Schema.{ValidationError, validate}
use kanna_pa.Tools.Result.{ToolResult, fail}
use kanna_pa.Tools.Registry.{
  Attempt, returned, raised, Tool, Registry, Context, Services, ok, as_dict, get_tool,
  approval_denied, finish, check_output, settle, run_tool, decision, permitted, invoke_tool, invoke,
}

ok-injective {ℓ} : {A : Type ℓ} {a b : A} → ok a ≡ ok b → a ≡ b
ok-injective e = cc

module _ {W : Type 0} (sv : Services W) where
  -- One event, about the result; one log entry with the same result, unless the database refuses it.
  pub record IsAudited (t : Tool W) (args : Value) (c : Context W) (after : ToolResult × Context W)
      : Type 0 where
    pub event :
        after.1.events ≡ c.events ++ executed t.name after.0.success after.0.duration_ms ∷ []
    pub entry : after.1.log ≡ (
        if sv.can_record after.1.world
          (record { tool_name = t.name; args = args; result = after.0 })
        then c.log ++ record { tool_name = t.name; args = args; result = after.0 } ∷ []
        else c.log)

  finish-IsAudited :
      (t : Tool W) (args : Value) (result : ToolResult) (start : ℕ) (c : Context W)
      → IsAudited t args c (finish sv t args result start c)
  unfolding finish
  finish-IsAudited t args result start c = record { event = refl; entry = refl }

  run_tool-IsAudited :
      (t : Tool W) (args : Value) (start : ℕ) (c : Context W)
      → IsAudited t args c (run_tool sv t args start c)
  unfolding run_tool
  run_tool-IsAudited t args start c = record { event = refl; entry = refl }

  permitted-IsAudited :
      (r : Registry W) (t : Tool W) (d : Decision) (args : Value) (start : ℕ) (c : Context W)
      → IsAudited t args c (permitted sv r t d args start c)
  unfolding permitted
  permitted-IsAudited r t allow args start c = record { event = refl; entry = refl }
  permitted-IsAudited r t deny args start c = record { event = refl; entry = refl }
  permitted-IsAudited r t require_approval args start c =
      if_ind (IsAudited t args c) (approve r.gate t.name (as_dict args))
        (λ _. run_tool-IsAudited t args start c)
        (λ _. finish-IsAudited t args (approval_denied t) start c)

  invoke_tool-IsAudited :
      (r : Registry W) (t : Tool W) (args : Value) (c : Context W)
      → IsAudited t args c (invoke_tool sv r t args c)
  unfolding invoke_tool
  invoke_tool-IsAudited r t args c =
      elim (Option-cases (validate sv.re_match t.input_schema args)) [
        | inl valid ↦
            rw (valid, invoke_tool)
              (permitted-IsAudited r t (decision r t args) args (sv.monotonic c.world) c)
        | inr (e, bad) ↦
            rw (bad, invoke_tool)
              (finish-IsAudited t args (fail "invalid_input" (sv.describe_error e))
                (sv.monotonic c.world) c)
      ]

  -- Every call of a registered name returns a result, publishes exactly one event behind the earlier
  -- ones, with the tool's name and the result's success and duration, and logs the arguments with
  -- that result unless the database refuses the entry.
  pub invoke-IsAudited :
      (r : Registry W) (n : String) (args : Value) (c : Context W) (t : Tool W)
      → get_tool r n ≡ ok t
      → (after : ToolResult × Context W) × (invoke sv r n args c ≡ ok after)
        × IsAudited t args c after
  unfolding invoke
  invoke-IsAudited r n args c t found =
      (invoke_tool sv r t args c, rw (found, invoke), invoke_tool-IsAudited r t args c)

  -- The results of a tool that succeed: returned by `execute`, with valid data.
  pub record IsGenuine (t : Tool W) (args : Value) (before : W) (result : ToolResult) : Type 0 where
    pub valid_input : validate sv.re_match t.input_schema args ≡ none
    pub valid_output : validate sv.re_match t.output_schema (obj result.result_data) ≡ none
    pub from_tool : ToolResult
    pub was_returned : (t.execute (as_dict args) before).0 ≡ returned from_tool
    pub claimed : from_tool.success ≡ true
    pub same_data : result ≡ record from_tool { duration_ms = result.duration_ms }

  check_output-success :
      (t : Tool W) (x : ToolResult)
      → (check_output sv t x).success ≡ true
      → (x.success ≡ true)
        × (validate sv.re_match t.output_schema (obj x.result_data) ≡ none)
        × (check_output sv t x ≡ x)
  unfolding check_output
  check_output-success t x h = ground arith

  settled :
      (t : Tool W) (a : Attempt)
      → (settle sv t a).success ≡ true
      → (x : ToolResult) × (a ≡ returned x)
        × (x.success ≡ true)
        × (validate sv.re_match t.output_schema (obj x.result_data) ≡ none)
        × (settle sv t a ≡ x)
  unfolding settle
  settled t (returned x) h =
      let (claimed, valid, same) = check_output-success t x h in (x, refl, claimed, valid, same)
  settled t (raised k m) h = cc

  run_tool-IsGenuine :
      (t : Tool W) (args : Value) (start : ℕ) (c : Context W)
      → validate sv.re_match t.input_schema args ≡ none
      → (run_tool sv t args start c).0.success ≡ true
      → IsGenuine t args c.world (run_tool sv t args start c).0
  unfolding run_tool
  run_tool-IsGenuine t args start c valid h =
      let (x, e, claimed, ok_out, same) = settled t (t.execute (as_dict args) c.world).0 h in
      record {
        valid_input = valid;
        valid_output = rw (sym same) at ok_out;
        from_tool = x;
        was_returned = e;
        claimed = claimed;
        same_data =
            ap {A = ToolResult} {B = ToolResult}
              (λ y. record y {
                duration_ms = sv.monotonic (t.execute (as_dict args) c.world).1 - start;
              })
              same;
      }

  permitted-IsGenuine :
      (r : Registry W) (t : Tool W) (d : Decision) (args : Value) (start : ℕ) (c : Context W)
      → validate sv.re_match t.input_schema args ≡ none
      → (permitted sv r t d args start c).0.success ≡ true
      → IsGenuine t args c.world (permitted sv r t d args start c).0
  unfolding permitted
  permitted-IsGenuine r t allow args start c valid h = run_tool-IsGenuine t args start c valid h
  permitted-IsGenuine r t deny args start c valid h = cc
  permitted-IsGenuine r t require_approval args start c valid h =
      if_ind (λ x. x.0.success ≡ true → IsGenuine t args c.world x.0)
        (approve r.gate t.name (as_dict args)) {x = run_tool sv t args start c}
        {y = finish sv t args (approval_denied t) start c}
        (λ _ h. run_tool-IsGenuine t args start c valid h) (λ _ h. cc) h

  invoke_tool-IsGenuine :
      (r : Registry W) (t : Tool W) (args : Value) (c : Context W) (o : Option ValidationError)
      → validate sv.re_match t.input_schema args ≡ o
      → (invoke_tool sv r t args c).0.success ≡ true
      → IsGenuine t args c.world (invoke_tool sv r t args c).0
  unfolding invoke_tool
  invoke_tool-IsGenuine r t args c none e =
      rw (e, invoke_tool)
        (permitted-IsGenuine r t (decision r t args) args (sv.monotonic c.world) c e)
  invoke_tool-IsGenuine r t args c (some x) e = rw (e, invoke_tool) (λ h. cc)

  -- A call that reports success had valid arguments, its tool was executed and itself returned
  -- success, what it returned is what is reported but for the duration, and the data conforms to the
  -- output schema.
  pub invoke-IsGenuine :
      (r : Registry W) (n : String) (args : Value) (c : Context W) (t : Tool W)
      (after : ToolResult × Context W)
      → get_tool r n ≡ ok t
      → invoke sv r n args c ≡ ok after
      → after.0.success ≡ true
      → IsGenuine t args c.world after.0
  unfolding invoke
  invoke-IsGenuine r n args c t after found e =
      let same : invoke_tool sv r t args c ≡ after = ok-injective (sym (rw (found, invoke)) ∙ e) in
      subst (λ x. x.0.success ≡ true → IsGenuine t args c.world x.0) same
        (invoke_tool-IsGenuine r t args c _ refl)
