-- ===== src/Scheduler/Daemon.antt =====
-- automation/scheduler/daemon.py. A tick changes a world and gives its outcomes, or raises; the stop
-- flag is what the n-th look at it sees, after `run_forever` has reset it.
pub mod Tests
use mathlib.Core.List.{append_assoc, append-nil}
use kanna_pa.Prelude.{
  ℕ, zero, suc, ◌+◌, ◌*◌, ◌<◌, ◌≡◌, ◌≢◌, refl, sym, ◌∙◌, Bool, true, false, Option, none, some,
  List, [], ◌∷◌, ◌++◌, arith, if◌then◌else◌, Bool-cases, Option-cases, if_ind, subst, length,
  length-append, ◌⊎◌, inl, inr,
}

pub data Act : Type 0 where
  tick sleep : Act

-- What was done and what the ticks gave, in order; or an exception of a tick or the callback.
pub data Ran (R W : Type 0) : Type 0 where
  ended : List R → List Act → W → Ran R W
  escaped : List Act → W → Ran R W
  out_of_fuel : Ran R W

module _ {R W : Type 0} (tick_once : W → Option R × W) (pause : W → W) where
  -- The rounds of `run_n_ticks` that are left; the last one does not sleep.
  unfoldable pub run_rounds : ℕ → List R → List Act → W → Ran R W
  run_rounds zero results acts w = ended results acts w
  run_rounds (suc zero) results acts w =
      let (outcome, w') = tick_once w in
      elim outcome [
        | none ↦ escaped (acts ++ tick ∷ []) w'
        | some r ↦ ended (results ++ r ∷ []) (acts ++ tick ∷ []) w'
      ]
  run_rounds (suc (suc n)) results acts w =
      let (outcome, w') = tick_once w in
      elim outcome [
        | none ↦ escaped (acts ++ tick ∷ []) w'
        | some r ↦ run_rounds (suc n) (results ++ r ∷ []) (acts ++ tick ∷ sleep ∷ []) (pause w')
      ]

  -- `run_n_ticks`
  unfoldable pub run_n_ticks : ℕ → W → Ran R W
  unfolding run_rounds
  run_n_ticks n w = run_rounds n [] [] w

  module _ (is_stopped : ℕ → Bool) where
    -- The loop of `run_forever`, from the look `k` at the flag on.
    unfoldable pub run_loop : ℕ → ℕ → List Act → W → Ran R W
    run_loop zero k acts w = out_of_fuel
    run_loop (suc fuel) k acts w =
        if is_stopped k
        then ended [] acts w
        else let (outcome, w') = tick_once w in
          elim outcome [
            | none ↦ escaped (acts ++ tick ∷ []) w'
            | some r ↦
                let again = run_loop fuel (k + 2) (acts ++ tick ∷ sleep ∷ []) (pause w') in
                if is_stopped (k + 1) then ended [] (acts ++ tick ∷ []) w' else again
          ]

    unfoldable pub run_forever : ℕ → W → Ran R W
    unfolding run_loop
    run_forever fuel w = run_loop fuel 0 [] w

    round_ends :
        (fuel k : ℕ) (acts : List Act) (w : W)
        → (is_stopped k ≡ true)
          ⊎ ((is_stopped (k + 1) ≡ true)
              ⊎ ((acts' : List Act) (w' : W) → run_loop fuel (k + 2) acts' w' ≢ out_of_fuel))
        → run_loop (suc fuel) k acts w ≢ out_of_fuel
    unfolding run_loop
    round_ends fuel k acts w (inl now) = rw (now, run_loop) (λ e. cc)
    round_ends fuel k acts w (inr why) = elim (Bool-cases (is_stopped k)) [
      | inl now ↦ rw (now, run_loop) (λ e. cc)
      | inr later ↦ elim (Option-cases (tick_once w).0) [
        | inl e ↦ rw (later, run_loop, e) (λ x. cc)
        | inr (r, e) ↦ rw (later, run_loop, e) (second why)
      ]
    ]
      where
        second :
            (is_stopped (k + 1) ≡ true)
              ⊎ ((acts' : List Act) (w' : W) → run_loop fuel (k + 2) acts' w' ≢ out_of_fuel)
            → (if is_stopped (k + 1)
                then ended [] (acts ++ tick ∷ []) (tick_once w).1
                else run_loop fuel (k + 2) (acts ++ tick ∷ sleep ∷ []) (pause (tick_once w).1))
              ≢ out_of_fuel
        second (inl now) = rw now (λ e. cc)
        second (inr more) =
            if_ind (λ x. x ≢ out_of_fuel) (is_stopped (k + 1)) (λ _ e. cc) (λ _. more _ _)

    -- However the ticks go, the loop ends once one of its looks sees the flag, which it takes twice in
    -- each round: no look after that is made.
    loop_ends :
        (fuel k rest : ℕ) (acts : List Act) (w : W)
        → is_stopped (k + rest) ≡ true
        → rest < 2 * fuel
        → run_loop fuel k acts w ≢ out_of_fuel
    loop_ends zero k rest acts w h lt = absurd (omega arith)
    loop_ends (suc fuel) k zero acts w h lt =
        round_ends fuel k acts w (inl (subst (λ n. is_stopped n ≡ true) (omega arith) h))
    loop_ends (suc fuel) k (suc zero) acts w h lt = round_ends fuel k acts w (inr (inl h))
    loop_ends (suc fuel) k (suc (suc rest)) acts w h lt = round_ends fuel k acts w (
        inr (
          inr (λ acts' w'.
            loop_ends fuel (k + 2) rest acts' w' (subst (λ n. is_stopped n ≡ true) (omega arith) h)
              (omega arith))))

    -- `run_forever` ends, by a return or by an exception, if any look at the flag sees it set.
    pub run_forever-ends :
        (n fuel : ℕ) (w : W) → is_stopped n ≡ true → n < 2 * fuel → run_forever fuel w ≢ out_of_fuel
    unfolding run_forever
    run_forever-ends n fuel w h lt =
        loop_ends fuel 0 n [] w (subst (λ m. is_stopped m ≡ true) (omega arith) h) lt

-- n ticks with a sleep between each two.
abbrev pub alternating : ℕ → List Act
alternating zero = []
alternating (suc zero) = tick ∷ []
alternating (suc (suc n)) = tick ∷ sleep ∷ alternating (suc n)

abbrev pub RanRounds : {R W : Type 0} → ℕ → List R → List Act → Ran R W → Type 0
RanRounds n results acts (ended results' acts' w) =
    (length results' ≡ length results + n) × (acts' ≡ acts ++ alternating n)
RanRounds n results acts (escaped acts' w) =
    (k : ℕ) × (k < n) × (acts' ≡ acts ++ alternating (suc k))
RanRounds n results acts out_of_fuel = ⊥

module _ {R W : Type 0} (tick_once : W → Option R × W) (pause : W → W) where
  shift :
      (n : ℕ) (results : List R) (r : R) (acts : List Act) (x : Ran R W)
      → RanRounds (suc n) (results ++ r ∷ []) (acts ++ tick ∷ sleep ∷ []) x
      → RanRounds (suc (suc n)) results acts x
  shift n results r acts (ended results' acts' w) (size, e) = (
    omega (arith, size, length-append results (r ∷ [])),
    e ∙ append_assoc acts (tick ∷ sleep ∷ []) (alternating (suc n)),
  )
  shift n results r acts (escaped acts' w) (k, lt, e) =
      (suc k, omega arith, e ∙ append_assoc acts (tick ∷ sleep ∷ []) (alternating (suc k)))
  shift n results r acts out_of_fuel h = h

  run_rounds-RanRounds :
      (n : ℕ) (results : List R) (acts : List Act) (w : W)
      → RanRounds n results acts (run_rounds tick_once pause n results acts w)
  unfolding run_rounds
  run_rounds-RanRounds zero results acts w = (omega arith, sym (append-nil acts))
  run_rounds-RanRounds (suc zero) results acts w = elim (Option-cases (tick_once w).0) [
    | inl e ↦ rw (e, run_rounds) (0, omega arith, refl)
    | inr (r, e) ↦ rw (e, run_rounds) (length-append results (r ∷ []), refl)
  ]
  run_rounds-RanRounds (suc (suc n)) results acts w = elim (Option-cases (tick_once w).0) [
    | inl e ↦ rw (e, run_rounds) (0, omega arith, refl)
    | inr (r, e) ↦
        rw (e, run_rounds)
          (shift n results r acts _ (
            run_rounds-RanRounds (suc n) (results ++ r ∷ []) (acts ++ tick ∷ sleep ∷ [])
              (pause (tick_once w).1)))
  ]

  -- `run_n_ticks` makes exactly n ticks with one sleep between each two and none behind the last, and
  -- gives as many results; an exception ends it behind the tick that raised.
  pub run_n_ticks-RanRounds : (n : ℕ) (w : W) → RanRounds n [] [] (run_n_ticks tick_once pause n w)
  unfolding run_n_ticks
  run_n_ticks-RanRounds n w = run_rounds-RanRounds n [] [] w
