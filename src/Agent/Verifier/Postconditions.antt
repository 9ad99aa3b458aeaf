-- ===== src/Agent/Verifier/Postconditions.antt =====
-- What follows from an empty list of reasons: `verify` of core/agent/verifier.py.
use kanna_pa.Prelude.{
  String, ◌≡◌, refl, subst, Bool, true, false, not, ◌&&◌, ◌||◌, List, [], ◌∷◌, ◌++◌, All, length,
  any_of, arith, ◌=ₛ◌, eq_iff, Bool-cases, inl, inr,
}
use kanna_pa.Prelude.Int.{pos}
use kanna_pa.Value.{
  Value, bool, int, str, Fields, end, field, get, has, or_null, or_default, eq_value, HasItem, here,
  there,
}
use kanna_pa.Permissions.Sandbox.{resolve, Result, ok, violation, os_error}
use kanna_pa.Tools.Result.{ToolResult}
use kanna_pa.Planner.Plan.{PlanStep}
use kanna_pa.Agent.Verifier.{
  Files, Reason, did_not_succeed, too_few_created, too_few_modified, empty_data, timed_out,
  reason_if, fewer, is_empty_at, differs, unequal, as_fields, as_strings, unique_from, check_exit,
  effective, expects_success, paths_of, check_path, check_paths, verify,
}

nil-append {ℓ} : {A : Type ℓ} (xs ys : List A) → xs ++ ys ≡ [] → (xs ≡ []) × (ys ≡ [])
nil-append [] ys h = (refl, h)
nil-append (x ∷ xs) ys h = cc

reason_if-nil : (b : Bool) (r : Reason) → reason_if b r ≡ [] → b ≡ false
reason_if-nil b r h = ground arith

not_failed : (a b : Bool) (r : Reason) → reason_if (a && not b) r ≡ [] → a ≡ true → b ≡ true
not_failed a b r h e = ground arith

unequal-nil :
    (fs actual : Fields)
    → unequal fs actual ≡ []
    → (k : String) (v : Value) → HasItem k v fs
    → differs (get k actual) v ≡ false
unfolding unequal
unequal-nil end actual h k v m = elim m [ ]
unequal-nil (field j w fs) actual h k v here = reason_if-nil _ _ (nil-append _ _ h).0
unequal-nil (field j w fs) actual h k v (there m) =
    unequal-nil fs actual (nil-append (reason_if _ _) _ h).1 k v m

module _ {W : Type 0} (files : Files W) (w : W) where
  -- The path resolves inside the sandbox, and there is something there.
  pub record IsOutput (p : String) : Type 0 where
    pub resolved : List String
    pub inside : resolve (files.os_resolve w) files.sandbox (files.parse_path p) ≡ ok resolved
    pub exists : files.exists w resolved ≡ true

  resolve-IsOutput :
      (p : String) (r : Result (List String))
      → resolve (files.os_resolve w) files.sandbox (files.parse_path p) ≡ r
      → check_path files w p ≡ []
      → IsOutput p
  unfolding check_path
  resolve-IsOutput p (ok q) e h = record { resolved = q; inside = e; exists = ground (arith, e, h) }
  resolve-IsOutput p (violation x) e h = absurd (ground (arith, e, h))
  resolve-IsOutput p os_error e h = absurd (ground (arith, e, h))

  check_paths-nil : (ps : List String) → check_paths files w ps ≡ [] → All IsOutput ps
  unfolding check_paths
  check_paths-nil [] h = tt
  check_paths-nil (p ∷ ps) h =
      let (first, rest) = nil-append (check_path files w p) _ h in
      (resolve-IsOutput p _ refl first, check_paths-nil ps rest)

All-known :
    (P : String → Type 0) (p : String) (seen : List String)
    → All P seen
    → any_of (λ q. q =ₛ p) seen ≡ true
    → P p
All-known P p [] a h = cc
All-known P p (q ∷ seen) a h = elim (Bool-cases (q =ₛ p)) [
  | inl same ↦ subst P ((eq_iff q p).0 same) a.0
  | inr other ↦ All-known P p seen a.1 (ground (arith, other, h))
]

-- Leaving out repeated paths leaves out no path.
unique_from-All :
    (P : String → Type 0) (ps seen : List String)
    → All P seen
    → All P (unique_from seen ps)
    → All P ps
unfolding unique_from
unique_from-All P [] seen s h = tt
unique_from-All P (p ∷ ps) seen s h = elim (Bool-cases (any_of (λ q. q =ₛ p) seen)) [
  | inl known ↦ (All-known P p seen s known, unique_from-All P ps seen s (rw known at h))
  | inr new ↦
      let (first, rest) : P p × All P (unique_from (p ∷ seen) ps) = rw new at h in
      (first, unique_from-All P ps (p ∷ seen) (first, s) rest)
]

All-split {ℓ κ} :
    {A : Type ℓ} (P : A → Type κ) (xs ys : List A) → All P (xs ++ ys) → All P xs × All P ys
All-split P [] ys h = (tt, h)
All-split P (x ∷ xs) ys h = let (a, b) = All-split P xs ys h.1 in ((h.0, a), b)

module _ {W : Type 0} (files : Files W) (w : W) (step : PlanStep) (r : ToolResult) where
  -- The postconditions that a step states, and those that every success has to meet.
  pub record Holds : Type 0 where
    pub succeeded : expects_success (effective step.expected) ≡ true → r.success ≡ true
    pub created :
        fewer (length r.files_created) (get "min_files_created" (effective step.expected)) ≡ false
    pub modified :
        fewer (length r.files_modified) (get "min_files_modified" (effective step.expected)) ≡ false
    pub nonempty :
        is_empty_at (get "data_nonempty_key" (effective step.expected)) r.result_data ≡ false
    pub equal :
        (k : String) (v : Value)
        → HasItem k v (as_fields (get "data_equals" (effective step.expected)))
        → differs (get k r.result_data) v ≡ false
    pub exited :
        r.success ≡ true
        → (step.tool_name =ₛ "process_run" || has "exit_code" (effective step.expected)) ≡ true
        → eq_value
            (or_null (get "exit_code" r.result_data))
            (or_default (int (pos 0)) (get "exit_code" (effective step.expected)))
          ≡ true
    pub in_time :
        r.success ≡ true
        → (step.tool_name =ₛ "process_run" || has "exit_code" (effective step.expected)) ≡ true
        → (eq_value (or_null (get "timed_out" r.result_data)) (bool true)
            || eq_value (or_null (get "timed_out" r.result_data)) (str "True"))
          ≡ false
    pub listed : All (IsOutput files w) (as_strings (get "files_exist" (effective step.expected)))
    pub outputs : r.success ≡ true → All (IsOutput files w) (r.files_created ++ r.files_modified)

  exit_code-held :
      (tool : String) (expected : Fields)
      → check_exit tool expected r ≡ []
      → r.success ≡ true
      → (tool =ₛ "process_run" || has "exit_code" expected) ≡ true
      → eq_value
          (or_null (get "exit_code" r.result_data))
          (or_default (int (pos 0)) (get "exit_code" expected))
        ≡ true
  unfolding check_exit
  exit_code-held tool expected h s asked = ground (arith, h, s, asked)

  timed_out-held :
      (tool : String) (expected : Fields)
      → check_exit tool expected r ≡ []
      → r.success ≡ true
      → (tool =ₛ "process_run" || has "exit_code" expected) ≡ true
      → (eq_value (or_null (get "timed_out" r.result_data)) (bool true)
          || eq_value (or_null (get "timed_out" r.result_data)) (str "True"))
        ≡ false
  unfolding check_exit
  timed_out-held tool expected h s asked =
      reason_if-nil _ timed_out (nil-append (reason_if _ _) _ (rw (s, asked) at h)).1

  paths-held :
      (expected : Fields)
      → All (IsOutput files w) (paths_of expected r)
      → All (IsOutput files w) (as_strings (get "files_exist" expected))
        × (r.success ≡ true → All (IsOutput files w) (r.files_created ++ r.files_modified))
  paths-held expected h = elim (Bool-cases r.success) [
    | inl s ↦
        let (a, b) =
          All-split (IsOutput files w) (as_strings (get "files_exist" expected)) _
            (unique_from-All (IsOutput files w) _ [] tt (rw s at h)) in
        (a, λ _. b)
    | inr f ↦ (rw f at h, λ s. cc)
  ]

  -- A step passes only if all of its postconditions hold: among them, if it counts as a success,
  -- that every file that it says it created or modified lies in the sandbox and exists.
  pub verify-Holds : verify files w step r ≡ [] → Holds
  unfolding verify
  verify-Holds h =
      let expected : Fields = effective step.expected in
      let d : Fields = r.result_data in
      let b1 : Bool = expects_success expected && not r.success in
      let b2 : Bool = fewer (length r.files_created) (get "min_files_created" expected) in
      let b3 : Bool = fewer (length r.files_modified) (get "min_files_modified" expected) in
      let b4 : Bool = is_empty_at (get "data_nonempty_key" expected) d in
      let (h1, t1) = nil-append (reason_if b1 (did_not_succeed r.error)) _ h in
      let (h2, t2) = nil-append (reason_if b2 too_few_created) _ t1 in
      let (h3, t3) = nil-append (reason_if b3 too_few_modified) _ t2 in
      let (h4, t4) = nil-append (reason_if b4 empty_data) _ t3 in
      let (h5, t5) = nil-append (unequal (as_fields (get "data_equals" expected)) d) _ t4 in
      let (h6, t6) = nil-append (check_exit step.tool_name expected r) _ t5 in
      let (listed, outputs) =
        paths-held expected (check_paths-nil files w (paths_of expected r) t6) in
      record {
        succeeded = not_failed (expects_success expected) r.success (did_not_succeed r.error) h1;
        created = reason_if-nil b2 too_few_created h2;
        modified = reason_if-nil b3 too_few_modified h3;
        nonempty = reason_if-nil b4 empty_data h4;
        equal = unequal-nil (as_fields (get "data_equals" expected)) d h5;
        exited = exit_code-held step.tool_name expected h6;
        in_time = timed_out-held step.tool_name expected h6;
        listed = listed;
        outputs = outputs;
      }
