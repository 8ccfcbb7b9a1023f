-- ===== src/Behavior/Timing.antt =====
-- When a behaviour runs again.
use fipa_wasm.Base.{
  ℕ, suc, ◌+◌, ◌<◌, ◌^◌, ◌%◌, ◌≡◌, refl, Option, none, some, Bool, true, false, arith, leb,
  if◌then◌else◌,
}
use fipa_wasm.Behavior.{
  Behavior, BehaviorType, one_shot, cyclic, ticker, waker, sequential, parallel, fsm, should_run,
  after_run, due,
}

-- What each type promises, for a run that was not the last.
abbrev pub resumes : BehaviorType → ℕ → Option ℕ → Option ℕ → ℕ → Bool
resumes one_shot now interval next later = false
resumes waker now interval next later = false
resumes ticker now none next later = due next later
resumes ticker now (some interval) next later = leb ((now + interval) % 2 ^ 64) later
resumes cyclic now interval next later = true
resumes sequential now interval next later = true
resumes parallel now interval next later = true
resumes fsm now interval next later = true

-- A behaviour that was run does not run again where the run was its last, nor where it is a one-shot
-- or a waker; a ticker with an interval runs again when the interval is over, and the others at once.
pub after_run-should_run :
    (b : Behavior) (now later : ℕ) (is_done : Bool)
    → suc b.run_count < 2 ^ 64
    → should_run (after_run now is_done b) later ≡ (
        if is_done
        then false
        else resumes b.behavior_type now b.config.tick_interval_ms b.next_run_ms later)
unfolding should_run after_run
after_run-should_run b now later true h = refl
after_run-should_run b now later false h = ground arith
