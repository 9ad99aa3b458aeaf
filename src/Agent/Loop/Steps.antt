-- ===== src/Agent/Loop/Steps.antt =====
-- How one step of a plan is tried: `_run_step` of core/agent/loop.py.
use mathlib.Core.List.{append_assoc}
use kanna_pa.Prelude.{
  ℕ, zero, suc, ◌+◌, ◌≤◌, ◌≡◌, ◌≢◌, refl, sym, ◌∙◌, ◌=ₛ◌, any_of, some, true, false, List, [], ◌∷◌,
  ◌++◌, All, length, length-append, arith, leb, if_ind,
}
use kanna_pa.Prelude.Int.{ℤ, pos_part}
use kanna_pa.Events.{cancelled}
use kanna_pa.Tools.Result.{ToolError}
use kanna_pa.Tools.Registry.{
  Registry, Outcome, OnOk, OnOk-map, OnOk-eq, ok, tool_not_found, duplicate_name,
}
use kanna_pa.Planner.Plan.{PlanStep}
use kanna_pa.Agent.Verifier.{verify}
use kanna_pa.Agent.Loop.{
  AttemptRecord, StepOutcome, Planner, LoopServices, LoopState, Passed, passed, emit, poll,
  terminal_errors, ends_with, is_final, note_cancel, stops, final_result, attempt_once, correct,
  next_try, attempts, run_step,
}

-- A revision may change the arguments and nothing else.
pub record SameTask (a b : PlanStep) : Type 0 where
  pub tool : a.tool_name ≡ b.tool_name
  pub expected : a.expected ≡ b.expected
  pub description : a.description ≡ b.description

SameTask-trans : (a b c : PlanStep) → SameTask a b → SameTask b c → SameTask a c
SameTask-trans a b c h k = record {
  tool = h.tool ∙ k.tool;
  expected = h.expected ∙ k.expected;
  description = h.description ∙ k.description;
}

-- A try that may be repeated: a check failed, the call did not succeed, and its error is none of
-- those that no other arguments may be tried after.
pub record MayRepeat (r : AttemptRecord) : Type 0 where
  pub failed : r.verification_errors ≢ []
  pub unsuccessful : r.result.success ≡ false
  pub curable :
      (e : ToolError)
      → r.result.error ≡ some e
      → (any_of (λ c. c =ₛ e.code) terminal_errors ≡ false)
        × (ends_with "_unavailable" e.code ≡ false)

stops-MayRepeat : (r : AttemptRecord) → stops r ≡ false → MayRepeat r
unfolding is_final
stops-MayRepeat r h = record {
  failed = λ e. ground (arith, e, h);
  unsuccessful = ground (arith, h);
  curable = λ e found. (ground (arith, found, h), ground (arith, found, h));
}

stops-All : (rs : List AttemptRecord) → All (λ r. stops r ≡ false) rs → All MayRepeat rs
stops-All [] h = tt
stops-All (r ∷ rs) h = (stops-MayRepeat r h.0, stops-All rs h.1)

module _ {W : Type 0} (sv : LoopServices W) (registry : Registry W) (planner : Planner W) where
  correct-SameTask :
      (current : PlanStep) (r : AttemptRecord) (st : LoopState W)
      → SameTask (correct sv registry planner current r st).0 current
  unfolding correct
  correct-SameTask current r st = ground arith

  attempt_once-verified :
      (n : ℕ) (current : PlanStep) (st : LoopState W) (r : AttemptRecord) (done : LoopState W)
      → attempt_once sv registry n current st ≡ ok (r, done)
      → (r.verification_errors ≡ verify sv.files done.ctx.world current r.result)
        × (r.args ≡ current.args)
        × (r.attempt ≡ n)
  unfolding attempt_once
  attempt_once-verified n current st r done h = ground arith

  -- What the passes of a step leave behind.
  pub record IsTrace (current : PlanStep) (history : List AttemptRecord) (left : ℕ) (p : Passed W)
      : Type 0 where
    pub earlier : List AttemptRecord
    pub split : p.history ≡ history ++ (earlier ++ p.last ∷ [])
    pub retried : All (λ r. stops r ≡ false) earlier
    pub bounded : length earlier ≤ left
    pub same : SameTask p.step current
    pub when : W
    pub verified : p.last.verification_errors ≡ verify sv.files when p.step p.last.result
    pub args : p.last.args ≡ p.step.args

  one_pass :
      (left n : ℕ) (current : PlanStep) (history : List AttemptRecord) (st : LoopState W)
      (r : AttemptRecord) (done end : LoopState W)
      → attempt_once sv registry n current st ≡ ok (r, done)
      → IsTrace current history left (passed current history r end)
  one_pass left n current history st r done end e =
      let (verified, args, _) = attempt_once-verified n current st r done e in
      record {
        earlier = [];
        split = refl;
        retried = tt;
        bounded = omega arith;
        same = record { tool = refl; expected = refl; description = refl };
        when = done.ctx.world;
        verified = verified;
        args = args;
      }

  more_passes :
      (left : ℕ) (current next : PlanStep) (history : List AttemptRecord) (r : AttemptRecord)
      (p : Passed W)
      → stops r ≡ false
      → SameTask next current
      → IsTrace next (history ++ r ∷ []) left p
      → IsTrace current history (suc left) p
  more_passes left current next history r p goes task t = record {
    earlier = r ∷ t.earlier;
    split = t.split ∙ append_assoc history (r ∷ []) (t.earlier ++ p.last ∷ []);
    retried = (goes, t.retried);
    bounded = omega (arith, t.bounded);
    same = SameTask-trans p.step next current t.same task;
    when = t.when;
    verified = t.verified;
    args = t.args;
  }

  module _ (max_corrections : ℤ) where
    pub next_try-SameTask :
        (n : ℕ) (current : PlanStep) (r : AttemptRecord) (st : LoopState W)
        → SameTask (next_try sv registry planner max_corrections n current r st).0 current
    unfolding next_try
    next_try-SameTask n current r st =
        if_ind (λ x. SameTask x.0 current) (leb n (pos_part max_corrections))
          {x = correct sv registry planner current r st} {y = (current, st)}
          (λ _. correct-SameTask current r st)
          (λ _. record { tool = refl; expected = refl; description = refl })

    attempts-IsTrace :
        (left n : ℕ) (current : PlanStep) (history : List AttemptRecord) (st : LoopState W)
        (o : Outcome (AttemptRecord × LoopState W))
        → attempt_once sv registry n current st ≡ o
        → OnOk
            (IsTrace current history left)
            (attempts sv registry planner max_corrections left n current history st)
    unfolding attempts
    attempts-IsTrace zero n current history st tool_not_found e = rw (e, attempts) tt
    attempts-IsTrace zero n current history st duplicate_name e = rw (e, attempts) tt
    attempts-IsTrace zero n current history st (ok (r, done)) e =
        rw (e, attempts)
          (if_ind (OnOk (IsTrace current history 0)) (stops r)
            (λ _. one_pass 0 n current history st r done done e)
            (λ _.
              one_pass 0 n current history st r done (note_cancel (poll sv done).0 (poll sv done).1)
                e))
    attempts-IsTrace (suc left) n current history st tool_not_found e = rw (e, attempts) tt
    attempts-IsTrace (suc left) n current history st duplicate_name e = rw (e, attempts) tt
    attempts-IsTrace (suc left) n current history st (ok (r, done)) e =
        rw (e, attempts)
          (if_ind (OnOk (IsTrace current history (suc left))) (stops r)
            (λ _. one_pass (suc left) n current history st r done done e)
            (λ goes.
              if_ind (OnOk (IsTrace current history (suc left))) (poll sv done).0
                (λ _.
                  one_pass (suc left) n current history st r done (emit cancelled (poll sv done).1)
                    e)
                (λ _.
                  let (next, revised) =
                    next_try sv registry planner max_corrections n current r (poll sv done).1 in
                  OnOk-map (IsTrace next (history ++ r ∷ []) left)
                    (IsTrace current history (suc left)) _
                    (λ p.
                      more_passes left current next history r p goes
                        (next_try-SameTask n current r (poll sv done).1))
                    (attempts-IsTrace left (n + 1) next (history ++ r ∷ []) revised _ refl))))

    final_result-success :
        (r : AttemptRecord)
        → (final_result sv r).success ≡ true
        → (r.verification_errors ≡ []) × (final_result sv r ≡ r.result)
    unfolding final_result
    final_result-success r h = ground arith

    -- A step that has been run: what was asked for, how often it was tried, and on what grounds.
    pub record IsTried (step : PlanStep) (o : StepOutcome) : Type 0 where
      pub same : SameTask o.step step
      pub earlier : List AttemptRecord
      pub last : AttemptRecord
      pub split : o.history ≡ earlier ++ last ∷ []
      pub counted : o.attempts ≡ length o.history
      pub bounded : o.attempts ≤ pos_part max_corrections + 1
      pub retried : All MayRepeat earlier
      pub checked :
          o.result.success ≡ true
          → (o.result ≡ last.result) × ((w : W) × (verify sv.files w o.step o.result ≡ []))

    tried :
        (step : PlanStep) (p : Passed W)
        → IsTrace step [] (pos_part max_corrections) p
        → IsTried step (record {
          step = p.step;
          result = final_result sv p.last;
          attempts = length p.history;
          history = p.history;
        })
    tried step p t = record {
      same = t.same;
      earlier = t.earlier;
      last = p.last;
      split = t.split;
      counted = refl;
      bounded = rw t.split (omega (arith, t.bounded, length-append t.earlier (p.last ∷ [])));
      retried = stops-All t.earlier t.retried;
      checked = λ h.
          let (empty, same) = final_result-success p.last h in
          (same, (t.when, rw same (sym t.verified ∙ empty)));
    }

    run_step-OnOk :
        (step : PlanStep) (st : LoopState W) (o : Outcome (Passed W))
        → attempts sv registry planner max_corrections (pos_part max_corrections) 1 step [] st ≡ o
        → OnOk (IsTrace step [] (pos_part max_corrections)) o
        → OnOk (λ x. IsTried step x.0) (run_step sv registry planner max_corrections step st)
    unfolding run_step
    run_step-OnOk step st (ok p) e t = rw (e, run_step) (tried step p t)
    run_step-OnOk step st tool_not_found e t = rw (e, run_step) tt
    run_step-OnOk step st duplicate_name e t = rw (e, run_step) tt

    -- A step is tried at most once more than there are corrections. Only the arguments may change
    -- between the tries. A try is repeated only after a failed check of a call that did not succeed
    -- and whose error is not final. A success that is reported is the last call's own result, and its
    -- postconditions were checked and held.
    pub run_step-IsTried :
        (step : PlanStep) (st : LoopState W) (o : StepOutcome) (after : LoopState W)
        → run_step sv registry planner max_corrections step st ≡ ok (o, after)
        → IsTried step o
    run_step-IsTried step st o after e =
        OnOk-eq (λ x. IsTried step x.0) _ (o, after) e
          (run_step-OnOk step st _ refl
            (attempts-IsTrace (pos_part max_corrections) 1 step [] st _ refl))
