-- ===== src/Behavior.antt =====
-- crates/fipa-wasm-agents/src/behavior/mod.rs: the scheduler of an agent's behaviours. Times are
-- milliseconds of a `u64`.
pub mod Scheduler
pub mod Timing
use fipa_wasm.Base.{
  ℕ, zero, suc, ◌+◌, ◌%◌, ◌^◌, String, List, [], ◌∷◌, Option, none, some, Bool, true, false, leb,
  ◌==◌, if◌then◌else◌,
}
use fipa_wasm.Actor.{next_u64}

pub data BehaviorType : Type 0 where
  one_shot cyclic ticker waker sequential parallel fsm : BehaviorType

pub data ParallelCompletion : Type 0 where
  when_all when_any : ParallelCompletion
  when_n : ℕ → ParallelCompletion

pub record FsmTransition : Type 0 where
  pub from_state : String
  pub to_state : String
  pub event : String

pub record BehaviorConfig : Type 0 where
  pub behavior_type : Option BehaviorType
  pub tick_interval_ms : Option ℕ
  pub wake_after_ms : Option ℕ
  pub sub_behaviors : List ℕ
  pub parallel_completion : Option ParallelCompletion
  pub fsm_initial_state : Option String
  pub fsm_transitions : List FsmTransition

pub data BehaviorStatus : Type 0 where
  ready running blocked done : BehaviorStatus

pub data BehaviorError : Type 0 where
  not_found : ℕ → BehaviorError
  invalid_config : String → BehaviorError
  already_running : BehaviorError
  sub_behavior_error fsm_error : String → BehaviorError

pub record Behavior : Type 0 where
  pub id : ℕ
  pub name : String
  pub behavior_type : BehaviorType
  pub status : BehaviorStatus
  pub config : BehaviorConfig
  pub last_run_ms : Option ℕ
  pub next_run_ms : Option ℕ
  pub run_count : ℕ
  pub fsm_current_state : Option String
  pub sequential_index : ℕ
  pub parallel_completed : ℕ
  pub started : Bool

abbrev pub new_behavior : ℕ → String → BehaviorType → BehaviorConfig → Behavior
new_behavior id name behavior_type config = record {
  id = id;
  name = name;
  behavior_type = behavior_type;
  status = ready;
  config = config;
  last_run_ms = none;
  next_run_ms = none;
  run_count = 0;
  fsm_current_state = config.fsm_initial_state;
  sequential_index = 0;
  parallel_completed = 0;
  started = false;
}

-- The derived `==` with one value.
abbrev pub is_ready : BehaviorStatus → Bool
is_ready ready = true
is_ready running = false
is_ready blocked = false
is_ready done = false

abbrev pub is_running : BehaviorStatus → Bool
is_running running = true
is_running ready = false
is_running blocked = false
is_running done = false

abbrev pub is_blocked : BehaviorStatus → Bool
is_blocked blocked = true
is_blocked ready = false
is_blocked running = false
is_blocked done = false

abbrev due : Option ℕ → ℕ → Bool
due none current_ms = true
due (some t) current_ms = leb t current_ms

abbrev by_type : BehaviorType → Behavior → ℕ → Bool
by_type one_shot b current_ms = b.run_count == 0
by_type cyclic b current_ms = true
by_type ticker b current_ms = due b.next_run_ms current_ms
by_type waker b current_ms = due b.next_run_ms current_ms
by_type sequential b current_ms = true
by_type parallel b current_ms = true
by_type fsm b current_ms = true

pub should_run : Behavior → ℕ → Bool
should_run b current_ms = if is_ready b.status then by_type b.behavior_type b current_ms else false

abbrev pub mark_done : Behavior → Behavior
mark_done b = record b { status = done }

abbrev schedule : ℕ → Option ℕ → Behavior → Behavior
schedule current_ms none b = b
schedule current_ms (some interval) b = record b {
  next_run_ms = some ((current_ms + interval) % 2 ^ 64);
}

abbrev again : BehaviorType → ℕ → Behavior → Behavior
again ticker current_ms b = schedule current_ms b.config.tick_interval_ms b
again waker current_ms b = mark_done b
again one_shot current_ms b = b
again cyclic current_ms b = b
again sequential current_ms b = b
again parallel current_ms b = b
again fsm current_ms b = b

pub after_run : ℕ → Bool → Behavior → Behavior
after_run current_ms is_done b =
    let ran = record b {
      last_run_ms = some current_ms;
      run_count = next_u64 b.run_count;
      status = ready;
    } in
    if is_done then mark_done ran else again b.behavior_type current_ms ran
