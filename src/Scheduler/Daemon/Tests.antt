-- ===== src/Scheduler/Daemon/Tests.antt =====
-- Runs of automation/scheduler/daemon.py.
use kanna_pa.Prelude.{ℕ, ◌+◌, ◌≡◌, ◌≢◌, refl, arith, some, [], ◌∷◌, leb}
use kanna_pa.Scheduler.Daemon.{
  tick, sleep, ended, out_of_fuel, run_rounds, run_n_ticks, run_forever, run_forever-ends,
}

-- A tick that counts, and a flag that is set from the fifth look on.
run_forever-ends_example :
    run_forever (λ (w : ℕ). (some w, w + 1)) (λ w. w) (λ k. leb 5 k) 3 0 ≢ out_of_fuel
run_forever-ends_example =
    run_forever-ends (λ (w : ℕ). (some w, w + 1)) (λ w. w) (λ k. leb 5 k) 5 3 0 refl (omega arith)

two_ticks :
    run_n_ticks (λ (w : ℕ). (some w, w + 1)) (λ w. w) 2 0
    ≡ ended (0 ∷ 1 ∷ []) (tick ∷ sleep ∷ tick ∷ []) 2
unfolding run_n_ticks run_rounds
two_ticks = refl
