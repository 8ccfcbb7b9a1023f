-- ===== src/Behavior/Scheduler/Examples.antt =====
-- A state machine and a ticker of a scheduler.
use fipa_wasm.Base.{◌+◌, ◌%◌, ◌^◌, List, [], ◌∷◌, ◌≡◌, none, some, false, leb, arith}
use fipa_wasm.Behavior.{BehaviorConfig, fsm, ticker, new_behavior, should_run, after_run}
use fipa_wasm.Behavior.Timing.{after_run-should_run}
use fipa_wasm.Behavior.Scheduler.{new_scheduler}
use fipa_wasm.Behavior.Scheduler.Soundness.{IsSound}
use fipa_wasm.Behavior.Scheduler.Runs.{
  Call, adding, firing, running_now, completing, removing, performs, performs-IsSound,
}

abbrev switch : BehaviorConfig
switch = record {
  behavior_type = some fsm;
  tick_interval_ms = none;
  wake_after_ms = none;
  sub_behaviors = [];
  parallel_completion = none;
  fsm_initial_state = some "idle";
  fsm_transitions = record { from_state = "idle"; to_state = "running"; event = "start" } ∷ [];
}

abbrev clock : BehaviorConfig
clock = record switch { behavior_type = some ticker; tick_interval_ms = some 100 }

abbrev calls : List Call
calls =
    adding 0 "fsm" switch
    ∷ adding 0 "ticker" clock
    ∷ firing 1 "start"
    ∷ running_now 2
    ∷ completing 2 5 false
    ∷ removing 2
    ∷ []

performs-IsSound_example : IsSound (performs calls new_scheduler)
performs-IsSound_example = performs-IsSound calls (omega arith)

after_run-should_run_example :
    should_run (after_run 5 false (new_behavior 2 "ticker" ticker clock)) 50
    ≡ leb ((5 + 100) % 2 ^ 64) 50
after_run-should_run_example =
    after_run-should_run (new_behavior 2 "ticker" ticker clock) 5 50 false (omega arith)
