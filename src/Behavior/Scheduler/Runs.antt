-- ===== src/Behavior/Scheduler/Runs.antt =====
-- A scheduler over any calls.
use fipa_wasm.Base.{
  ℕ, suc, ◌+◌, ◌-◌, ◌<◌, ◌≤◌, ◌^◌, String, List, [], ◌∷◌, length, ◌≡◌, refl, sym, subst, Option,
  none, some, Bool, true, arith,
}
use fipa_wasm.Base.Result.{Result}
use fipa_wasm.Base.Table.{find}
use fipa_wasm.Behavior.{Behavior, BehaviorConfig, BehaviorType, BehaviorError, mark_done, running}
use fipa_wasm.Behavior.Scheduler.{
  BehaviorScheduler, new_scheduler, flaw, add_valid, add_typed, add_behavior, with_found,
  remove_found, remove_behavior, block, block_behavior, restart, restart_behavior, fire, fsm_event,
  reset, reset_behavior, behavior_done, mark_running, handle_completion, mark_started,
}
use fipa_wasm.Behavior.Scheduler.Soundness.{
  IsSound, IsKeeping, with_found-IsSound, remove_found-IsSound,
}
use fipa_wasm.Behavior.Scheduler.Calls.{
  block-IsKeeping, restart-IsKeeping, after_run-IsKeeping, reset-IsKeeping, fire-IsKeeping,
  reported-state, enter-IsSound, plain, unchanged_fields,
}

pub data Call : Type 0 where
  adding : ℕ → String → BehaviorConfig → Call
  removing blocking restarting finishing resetting running_now starting : ℕ → Call
  firing : ℕ → String → Call
  completing : ℕ → ℕ → Bool → Call

unfoldable pub perform : Call → BehaviorScheduler → BehaviorScheduler
perform (adding now name config) s = (add_behavior now name config s).0
perform (removing id) s = (remove_behavior id s).0
perform (blocking id) s = (block_behavior id s).0
perform (restarting id) s = (restart_behavior id s).0
perform (finishing id) s = behavior_done id s
perform (resetting id) s = (reset_behavior id s).0
perform (running_now id) s = mark_running id s
perform (starting id) s = mark_started id s
perform (firing id event) s = (fsm_event id event s).0
perform (completing id current_ms is_done) s = handle_completion id current_ms is_done s

unfoldable pub performs : List Call → BehaviorScheduler → BehaviorScheduler
unfolding perform
performs [] s = s
performs (call ∷ calls) s = performs calls (perform call s)

-- The identifiers grow by at most one.
with_found-next_id :
    (id : ℕ) (f : Behavior → Result BehaviorError Behavior) (o : Option Behavior)
    (s : BehaviorScheduler)
    → (with_found id f o s).0.next_id ≡ s.next_id
with_found-next_id id f none s = refl
with_found-next_id id f (some b) s = ground arith

remove_found-next_id :
    (id : ℕ) (o : Option Behavior) (s : BehaviorScheduler)
    → (remove_found id o s).0.next_id ≡ s.next_id
remove_found-next_id id none s = refl
remove_found-next_id id (some b) s = refl

add_valid-IsSound :
    (now : ℕ) (name : String) (config : BehaviorConfig) (ty : BehaviorType) (o : Option String)
    (s : BehaviorScheduler)
    → config.behavior_type ≡ some ty
    → flaw ty config ≡ o
    → suc s.next_id < 2 ^ 64
    → IsSound s
    → IsSound (add_valid now name config ty o s).0
      × ((add_valid now name config ty o s).0.next_id ≤ suc s.next_id)
add_valid-IsSound now name config ty (some m) s t v room w = (w, omega arith)
add_valid-IsSound now name config ty none s t v room w =
    (enter-IsSound now name config ty s t v room w, omega (arith, room))

add_typed-IsSound :
    (now : ℕ) (name : String) (config : BehaviorConfig) (o : Option BehaviorType)
    (s : BehaviorScheduler)
    → config.behavior_type ≡ o
    → suc s.next_id < 2 ^ 64
    → IsSound s
    → IsSound (add_typed now name config o s).0
      × ((add_typed now name config o s).0.next_id ≤ suc s.next_id)
add_typed-IsSound now name config none s t room w = (w, omega arith)
add_typed-IsSound now name config (some ty) s t room w =
    add_valid-IsSound now name config ty (flaw ty config) s t refl room w

changes :
    (id : ℕ) (f : Behavior → Result BehaviorError Behavior) (s : BehaviorScheduler)
    → IsKeeping f
    → IsSound s
    → IsSound (with_found id f (find id s.behaviors) s).0
      × ((with_found id f (find id s.behaviors) s).0.next_id ≤ suc s.next_id)
changes id f s k w = (
  with_found-IsSound s id f (find id s.behaviors) k refl w,
  omega (arith, with_found-next_id id f (find id s.behaviors) s),
)

perform-IsSound :
    (call : Call) (s : BehaviorScheduler)
    → suc s.next_id < 2 ^ 64
    → IsSound s
    → IsSound (perform call s) × ((perform call s).next_id ≤ suc s.next_id)
unfolding perform add_behavior handle_completion
perform-IsSound (adding now name config) s room w =
    add_typed-IsSound now name config config.behavior_type s refl room w
perform-IsSound (removing id) s room w = (
  remove_found-IsSound s id (find id s.behaviors) w,
  omega (arith, remove_found-next_id id (find id s.behaviors) s),
)
perform-IsSound (blocking id) s room w = changes id block s block-IsKeeping w
perform-IsSound (restarting id) s room w = changes id restart s restart-IsKeeping w
perform-IsSound (finishing id) s room w =
    changes id _ s (plain mark_done (λ (b : Behavior). unchanged_fields b _ refl refl refl refl)) w
perform-IsSound (resetting id) s room w = changes id reset s reset-IsKeeping w
perform-IsSound (running_now id) s room w =
    changes id _ s
      (plain (λ (b : Behavior). record b { status = running })
        (λ (b : Behavior). unchanged_fields b _ refl refl refl refl))
      w
perform-IsSound (starting id) s room w =
    changes id _ s
      (plain (λ (b : Behavior). record b { started = true })
        (λ (b : Behavior). unchanged_fields b _ refl refl refl refl))
      w
perform-IsSound (firing id event) s room w =
    let c = changes id (fire event) s (fire-IsKeeping event) w in
    let same = reported-state id (with_found id (fire event) (find id s.behaviors) s) in
    (
      subst IsSound (sym same) c.0,
      subst (λ (t : BehaviorScheduler). t.next_id ≤ suc s.next_id) (sym same) c.1,
    )
perform-IsSound (completing id current_ms is_done) s room w =
    changes id _ s (after_run-IsKeeping current_ms is_done) w

-- Over fewer calls than there are identifiers, every behaviour stands under its own identifier, which
-- is below the next one to be given; it has the type of its configuration, which is valid for the
-- type; and the state that it is in, as a state machine, is one that the configured transitions lead
-- to from the configured initial state.
pub performs-IsSound :
    (calls : List Call) → length calls < 2 ^ 64 - 2 → IsSound (performs calls new_scheduler)
unfolding performs find
performs-IsSound calls room = go calls new_scheduler (omega (arith, room)) start
  where
    none_there : {b : Behavior} → ◌≡◌ {A = Option Behavior} none (some b) → ⊥
    none_there e = cc

    start : IsSound new_scheduler
    start = record {
      own_id = λ (id : ℕ) (b : Behavior) (f : find id [] ≡ some b). absurd (none_there f);
      given = λ (id : ℕ) (b : Behavior) (f : find id [] ≡ some b). absurd (none_there f);
      well = λ (id : ℕ) (b : Behavior) (f : find id [] ≡ some b). absurd (none_there f);
    }

    go :
        (calls : List Call) (s : BehaviorScheduler)
        → s.next_id + length calls < 2 ^ 64 - 1
        → IsSound s
        → IsSound (performs calls s)
    go [] s h w = w
    go (call ∷ calls) s h w =
        let next = perform-IsSound call s (omega (arith, h)) w in
        go calls (perform call s) (omega (arith, h, next.1)) next.0
