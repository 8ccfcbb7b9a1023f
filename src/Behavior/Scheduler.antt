-- ===== src/Behavior/Scheduler.antt =====
-- `BehaviorScheduler`: the behaviours by identifier, and the last identifier given to a name.
pub mod Soundness
pub mod Calls
pub mod Runs
mod Examples
use fipa_wasm.Base.{
  ℕ, ◌+◌, ◌%◌, ◌^◌, String, List, [], ◌∷◌, filter, map, is_empty, is_some, Option, none, some, Bool,
  true, false, not, ◌&&◌, ◌=s=◌, ◌<>◌, if◌then◌else◌,
}
use fipa_wasm.Base.Dict.{Dict, insert, remove}
use fipa_wasm.Base.Table.{Table, find, put, take_out}
use fipa_wasm.Base.Result.{Result, ok, err}
use fipa_wasm.Actor.{next_u64}
use fipa_wasm.Behavior.{
  Behavior, BehaviorConfig, BehaviorError, BehaviorStatus, BehaviorType, FsmTransition, one_shot,
  cyclic, ticker, waker, sequential, parallel, fsm, ready, running, blocked, not_found,
  invalid_config, already_running, fsm_error, new_behavior, is_running, is_blocked, mark_done,
  after_run, should_run,
}

pub record BehaviorScheduler : Type 0 where
  pub behaviors : Table Behavior
  pub next_id : ℕ
  pub name_to_id : Dict ℕ

abbrev pub new_scheduler : BehaviorScheduler
new_scheduler = record { behaviors = []; next_id = 1; name_to_id = [] }

-- The `match` that validates a configuration: what is wrong with it.
abbrev pub flaw : BehaviorType → BehaviorConfig → Option String
flaw ticker config =
    if is_some config.tick_interval_ms then none else some "tick_interval_ms required for Ticker"
flaw waker config =
    if is_some config.wake_after_ms then none else some "wake_after_ms required for Waker"
flaw sequential config =
    if is_empty config.sub_behaviors
    then some "sub_behaviors required for composite behavior"
    else none
flaw parallel config =
    if is_empty config.sub_behaviors
    then some "sub_behaviors required for composite behavior"
    else none
flaw fsm config =
    if is_some config.fsm_initial_state then none else some "fsm_initial_state required for FSM"
flaw one_shot config = none
flaw cyclic config = none

abbrev wake_at : ℕ → Option ℕ → Option ℕ
wake_at now none = none
wake_at now (some delay) = some ((now + delay) % 2 ^ 64)

-- The first run: `now` is the clock's.
abbrev pub first_run : ℕ → BehaviorType → BehaviorConfig → Option ℕ
first_run now waker config = wake_at now config.wake_after_ms
first_run now ticker config = some 0
first_run now one_shot config = none
first_run now cyclic config = none
first_run now sequential config = none
first_run now parallel config = none
first_run now fsm config = none

abbrev pub enter :
    ℕ → String → BehaviorConfig → BehaviorType → BehaviorScheduler → BehaviorScheduler
enter now name config behavior_type s =
    let id = s.next_id in
    record {
      behaviors =
          put id
            (record (new_behavior id name behavior_type config) {
              next_run_ms = first_run now behavior_type config;
            })
            s.behaviors;
      next_id = next_u64 s.next_id;
      name_to_id = insert name id s.name_to_id;
    }

abbrev pub add_valid :
    ℕ
    → String
    → BehaviorConfig
    → BehaviorType
    → Option String
    → BehaviorScheduler
    → BehaviorScheduler × Result BehaviorError ℕ
add_valid now name config behavior_type (some message) s = (s, err (invalid_config message))
add_valid now name config behavior_type none s =
    (enter now name config behavior_type s, ok s.next_id)

abbrev pub add_typed :
    ℕ
    → String
    → BehaviorConfig
    → Option BehaviorType
    → BehaviorScheduler
    → BehaviorScheduler × Result BehaviorError ℕ
add_typed now name config none s = (s, err (invalid_config "behavior_type is required"))
add_typed now name config (some behavior_type) s =
    add_valid now name config behavior_type (flaw behavior_type config) s

pub add_behavior :
    ℕ → String → BehaviorConfig → BehaviorScheduler → BehaviorScheduler × Result BehaviorError ℕ
add_behavior now name config s = add_typed now name config config.behavior_type s

-- The answer of a call that has no value, and a behaviour that is put back changed.
abbrev pub Answer : Type 0
Answer = BehaviorScheduler × Result BehaviorError (Unit {0})

abbrev pub put_back : ℕ → Behavior → BehaviorScheduler → BehaviorScheduler
put_back id b s = record s { behaviors = put id b s.behaviors }

-- `get_mut(&id).ok_or(NotFound(id))?` and what follows.
abbrev pub with_found :
    ℕ → (Behavior → Result BehaviorError Behavior) → Option Behavior → BehaviorScheduler → Answer
with_found id f none s = (s, err (not_found id))
with_found id f (some b) s = elim (f b) [ err e ↦ (s, err e) | ok c ↦ (put_back id c s, ok tt) ]

abbrev pub remove_found : ℕ → Option Behavior → BehaviorScheduler → Answer
remove_found id none s = (s, err (not_found id))
remove_found id (some b) s = (
  record s { behaviors = take_out id s.behaviors; name_to_id = remove b.name s.name_to_id },
  ok tt,
)

abbrev pub remove_behavior : ℕ → BehaviorScheduler → Answer
remove_behavior id s = remove_found id (find id s.behaviors) s

abbrev pub block : Behavior → Result BehaviorError Behavior
block b = if is_running b.status then err already_running else ok (record b { status = blocked })

abbrev pub block_behavior : ℕ → BehaviorScheduler → Answer
block_behavior id s = with_found id block (find id s.behaviors) s

abbrev pub restart : Behavior → Result BehaviorError Behavior
restart b = ok (if is_blocked b.status then record b { status = ready } else b)

abbrev pub restart_behavior : ℕ → BehaviorScheduler → Answer
restart_behavior id s = with_found id restart (find id s.behaviors) s

abbrev pub status_of : ℕ → Option Behavior → Result BehaviorError BehaviorStatus
status_of id none = err (not_found id)
status_of id (some b) = ok b.status

abbrev pub get_status : ℕ → BehaviorScheduler → Result BehaviorError BehaviorStatus
get_status id s = status_of id (find id s.behaviors)

-- The first transition that fits.
pub first_transition : List FsmTransition → String → String → Option FsmTransition
first_transition [] current event = none
first_transition (t ∷ ts) current event =
    if (t.from_state =s= current) && (t.event =s= event)
    then some t
    else first_transition ts current event

abbrev is_fsm : BehaviorType → Bool
is_fsm fsm = true
is_fsm one_shot = false
is_fsm cyclic = false
is_fsm ticker = false
is_fsm waker = false
is_fsm sequential = false
is_fsm parallel = false

abbrev pub transit :
    String → String → Option FsmTransition → Behavior → Result BehaviorError Behavior
transit current event none b =
    err (fsm_error ("No transition from '" <> current <> "' on event '" <> event <> "'"))
transit current event (some t) b = ok (record b { fsm_current_state = some t.to_state })

abbrev pub fire_from : String → Option String → Behavior → Result BehaviorError Behavior
fire_from event none b = err (fsm_error "No current state")
fire_from event (some current) b =
    transit current event (first_transition b.config.fsm_transitions current event) b

abbrev pub fire : String → Behavior → Result BehaviorError Behavior
fire event b =
    if is_fsm b.behavior_type
    then fire_from event b.fsm_current_state b
    else err (fsm_error "Not an FSM behavior")

abbrev pub state_of : Option String → Result BehaviorError String
state_of none = err (fsm_error "No current state")
state_of (some state) = ok state

abbrev pub current_of : ℕ → Option Behavior → Result BehaviorError String
current_of id none = err (not_found id)
current_of id (some b) = state_of b.fsm_current_state

abbrev pub fsm_current_state : ℕ → BehaviorScheduler → Result BehaviorError String
fsm_current_state id s = current_of id (find id s.behaviors)

-- The state that is returned is the one that is stored.
abbrev pub reported : ℕ → Answer → BehaviorScheduler × Result BehaviorError String
reported id (s, err e) = (s, err e)
reported id (s, ok u) = (s, fsm_current_state id s)

abbrev pub fsm_event :
    ℕ → String → BehaviorScheduler → BehaviorScheduler × Result BehaviorError String
fsm_event id event s = reported id (with_found id (fire event) (find id s.behaviors) s)

abbrev pub reset : Behavior → Result BehaviorError Behavior
reset b = ok (record b {
  status = ready;
  run_count = 0;
  started = false;
  sequential_index = 0;
  parallel_completed = 0;
  fsm_current_state = b.config.fsm_initial_state;
})

abbrev pub reset_behavior : ℕ → BehaviorScheduler → Answer
reset_behavior id s = with_found id reset (find id s.behaviors) s

-- The calls that do nothing where there is no such behaviour.
abbrev pub behavior_done : ℕ → BehaviorScheduler → BehaviorScheduler
behavior_done id s = (with_found id (λ (b : Behavior). ok (mark_done b)) (find id s.behaviors) s).0

abbrev pub mark_running : ℕ → BehaviorScheduler → BehaviorScheduler
mark_running id s =
    (with_found id (λ (b : Behavior). ok (record b { status = running })) (find id s.behaviors) s).0

abbrev pub handle_completion : ℕ → ℕ → Bool → BehaviorScheduler → BehaviorScheduler
unfolding after_run
handle_completion id current_ms is_done s =
    (with_found id (λ (b : Behavior). ok (after_run current_ms is_done b)) (find id s.behaviors)
      s).0

abbrev pub mark_started : ℕ → BehaviorScheduler → BehaviorScheduler
mark_started id s =
    (with_found id (λ (b : Behavior). ok (record b { started = true })) (find id s.behaviors) s).0

abbrev is_unstarted : Option Behavior → Bool
is_unstarted none = false
is_unstarted (some b) = not b.started

abbrev needs_start : ℕ → BehaviorScheduler → Bool
needs_start id s = is_unstarted (find id s.behaviors)

-- The values of the map, in some order: `order` is the map's.
abbrev list_behaviors :
    (Table Behavior → Table Behavior) → BehaviorScheduler → List (ℕ × String × BehaviorStatus)
list_behaviors order s =
    map (λ (e : ℕ × Behavior). (e.1.id, e.1.name, e.1.status)) (order s.behaviors)

abbrev get_runnable : (Table Behavior → Table Behavior) → ℕ → BehaviorScheduler → List Behavior
unfolding should_run
get_runnable order current_ms s =
    filter (λ (b : Behavior). should_run b current_ms)
      (map (λ (e : ℕ × Behavior). e.1) (order s.behaviors))
