-- ===== src/Behavior/Scheduler/Calls.antt =====
-- The calls of a scheduler.
use mathlib.Core.List.{Memᴰ}
use fipa_wasm.Base.{
  ℕ, suc, ◌<◌, ◌^◌, String, List, [], ◌∷◌, ◌≡◌, refl, sym, ap, ◌∙◌, subst, Option, none, some, Bool,
  true, false, ◌&&◌, ◌=s=◌, ◌==◌, eq_iff, arith, if◌then◌else◌,
}
use fipa_wasm.Base.Table.{find, find-put}
use fipa_wasm.Base.Result.{Result, ok, err}
use fipa_wasm.Actor.{next_u64}
use fipa_wasm.Behavior.{
  Behavior, BehaviorConfig, BehaviorError, BehaviorType, FsmTransition, ready, blocked,
  already_running, fsm_error, after_run, new_behavior, is_running, is_blocked,
}
use fipa_wasm.Behavior.Scheduler.{
  BehaviorScheduler, Answer, flaw, enter, block, restart, first_transition, transit, fire_from,
  fire, reported, reset, is_fsm, first_run,
}
use fipa_wasm.Behavior.Scheduler.Soundness.{
  Reaches, stays, moves, IsWell, IsSound, Keeps, IsKeeping, ok_inj,
}

pub unchanged_fields :
    (b c : Behavior)
    → c.id ≡ b.id
    → c.config ≡ b.config
    → c.behavior_type ≡ b.behavior_type
    → c.fsm_current_state ≡ b.fsm_current_state
    → Keeps b c
unchanged_fields b c i g t f = record { same_id = i; still = kept }
  where
    kept : IsWell b → IsWell c
    kept w = record {
      typed = ap (λ (x : BehaviorConfig). x.behavior_type) g ∙ w.typed ∙ ap some (sym t);
      valid = ap (λ (x : BehaviorType). flaw x c.config) t ∙ ap (flaw b.behavior_type) g ∙ w.valid;
      reached =
          subst
            (λ (x : BehaviorConfig).
              Reaches x.fsm_transitions x.fsm_initial_state c.fsm_current_state)
            (sym g)
            (subst (Reaches b.config.fsm_transitions b.config.fsm_initial_state) (sym f) w.reached);
    }

pub plain :
    (g : Behavior → Behavior)
    → ((b : Behavior) → Keeps b (g b))
    → IsKeeping (λ (b : Behavior). ok (g b))
plain g k b c e = subst (Keeps b) (ok_inj e) (k b)

pub block-IsKeeping : IsKeeping block
block-IsKeeping b c = by_status (is_running b.status)
  where
    by_status :
        (h : Bool)
        → (if h then err already_running else ok (record b { status = blocked })) ≡ ok c
        → Keeps b c
    by_status true e = absurd (refused e)
      where
        refused : ¬ (◌≡◌ {A = Result BehaviorError Behavior} (err already_running) (ok c))
        refused e = cc
    by_status false e = subst (Keeps b) (ok_inj e) (unchanged_fields b _ refl refl refl refl)

pub restart-IsKeeping : IsKeeping restart
restart-IsKeeping =
    plain (λ (b : Behavior). if is_blocked b.status then record b { status = ready } else b)
      (λ (b : Behavior).
        unchanged_fields b _ (ground arith) (ground arith) (ground arith) (ground arith))

pub after_run-IsKeeping :
    (now : ℕ) (is_done : Bool) → IsKeeping (λ (b : Behavior). ok (after_run now is_done b))
unfolding after_run
after_run-IsKeeping now is_done = plain (after_run now is_done) (λ (b : Behavior).
    unchanged_fields b (after_run now is_done b) (ground arith) (ground arith) (ground arith)
      (ground arith))

pub reset-IsKeeping : IsKeeping reset
reset-IsKeeping = plain _ (λ (b : Behavior). record {
  same_id = refl;
  still = λ (w : IsWell b). record { typed = w.typed; valid = w.valid; reached = stays };
})

first_transition-fits :
    (ts : List FsmTransition) (current event : String) (t : FsmTransition)
    → first_transition ts current event ≡ some t
    → (t.from_state ≡ current) × Memᴰ t ts
unfolding first_transition
first_transition-fits [] current event t e = absurd (none_there e)
  where
    none_there : ◌≡◌ {A = Option FsmTransition} none (some t) → ⊥
    none_there e = cc
first_transition-fits (u ∷ ts) current event t e =
    by_hit ((u.from_state =s= current) && (u.event =s= event)) refl e
      (first_transition-fits ts current event t)
  where
    by_hit :
        (hit : Bool)
        → ((u.from_state =s= current) && (u.event =s= event)) ≡ hit
        → (if hit then some u else first_transition ts current event) ≡ some t
        → (first_transition ts current event ≡ some t → (t.from_state ≡ current) × Memᴰ t ts)
        → (t.from_state ≡ current) × Memᴰ t (u ∷ ts)
    by_hit true h q later =
        let same = only q in
        (
          ap (λ (x : FsmTransition). x.from_state) same
              ∙ (eq_iff u.from_state current).0
                  (left (u.from_state =s= current) (u.event =s= event) h),
          Memᴰ.head same,
        )
      where
        only : some u ≡ some t → t ≡ u
        only q = cc

        left : (a b : Bool) → (a && b) ≡ true → a ≡ true
        left a b h = ground arith
    by_hit false h q later = let rest = later q in (rest.0, Memᴰ.tail rest.1)

-- An event moves along a transition of the configuration.
transit-Keeps :
    (current event : String) (b c : Behavior) (o : Option FsmTransition)
    → b.fsm_current_state ≡ some current
    → first_transition b.config.fsm_transitions current event ≡ o
    → transit current event o b ≡ ok c
    → Keeps b c
transit-Keeps current event b c none s f e = absurd (refused e)
  where
    refused : {m : BehaviorError} → ◌≡◌ {A = Result BehaviorError Behavior} (err m) (ok c) → ⊥
    refused e = cc
transit-Keeps current event b c (some t) s f e =
    let fits = first_transition-fits b.config.fsm_transitions current event t f in
    subst (Keeps b) (ok_inj e) (record {
      same_id = refl;
      still = λ (w : IsWell b). record {
        typed = w.typed;
        valid = w.valid;
        reached = moves t w.reached (s ∙ ap some (sym fits.0)) fits.1;
      };
    })

fire_from-Keeps :
    (event : String) (b c : Behavior) (o : Option String)
    → b.fsm_current_state ≡ o
    → fire_from event o b ≡ ok c
    → Keeps b c
fire_from-Keeps event b c none s e = absurd (refused e)
  where
    refused : {m : BehaviorError} → ◌≡◌ {A = Result BehaviorError Behavior} (err m) (ok c) → ⊥
    refused e = cc
fire_from-Keeps event b c (some current) s e =
    transit-Keeps current event b c (first_transition b.config.fsm_transitions current event) s refl
      e

pub fire-IsKeeping : (event : String) → IsKeeping (fire event)
fire-IsKeeping event b c = by_type (is_fsm b.behavior_type)
  where
    by_type :
        (h : Bool)
        → (if h
            then fire_from event b.fsm_current_state b
            else err (fsm_error "Not an FSM behavior"))
          ≡ ok c
        → Keeps b c
    by_type true e = fire_from-Keeps event b c b.fsm_current_state refl e
    by_type false e = absurd (refused e)
      where
        refused : {m : BehaviorError} → ◌≡◌ {A = Result BehaviorError Behavior} (err m) (ok c) → ⊥
        refused e = cc

pub reported-state : (id : ℕ) (a : Answer) → (reported id a).0 ≡ a.0
reported-state id (s, err e) = refl
reported-state id (s, ok u) = refl

-- A new behaviour, under an identifier below the wrap-around.
pub enter-IsSound :
    (now : ℕ) (name : String) (config : BehaviorConfig) (ty : BehaviorType) (s : BehaviorScheduler)
    → config.behavior_type ≡ some ty
    → flaw ty config ≡ none
    → suc s.next_id < 2 ^ 64
    → IsSound s
    → IsSound (enter now name config ty s)
enter-IsSound now name config ty s t v room w = record {
  own_id = λ (j : ℕ) (d : Behavior) (f : find j (enter now name config ty s).behaviors ≡ some d).
      by_id j d (s.next_id == j) refl (sym (find-put s.next_id j entry s.behaviors) ∙ f);
  given = λ (j : ℕ) (d : Behavior) (f : find j (enter now name config ty s).behaviors ≡ some d).
      given_by j d (s.next_id == j) refl (sym (find-put s.next_id j entry s.behaviors) ∙ f);
  well = λ (j : ℕ) (d : Behavior) (f : find j (enter now name config ty s).behaviors ≡ some d).
      well_by j d (s.next_id == j) (sym (find-put s.next_id j entry s.behaviors) ∙ f);
}
  where
    entry : Behavior
    entry = record (new_behavior s.next_id name ty config) { next_run_ms = first_run now ty config }

    same : (m n : ℕ) → (m == n) ≡ true → m ≡ n
    same m n h = ground arith

    only : (d : Behavior) → some entry ≡ some d → entry ≡ d
    only d h = cc

    by_id :
        (j : ℕ) (d : Behavior) (hit : Bool)
        → (s.next_id == j) ≡ hit
        → (if hit then some entry else find j s.behaviors) ≡ some d
        → d.id ≡ j
    by_id j d true h f = subst (λ (x : Behavior). x.id ≡ j) (only d f) (same s.next_id j h)
    by_id j d false h f = w.own_id j d f

    given_by :
        (j : ℕ) (d : Behavior) (hit : Bool)
        → (s.next_id == j) ≡ hit
        → (if hit then some entry else find j s.behaviors) ≡ some d
        → j < next_u64 s.next_id
    given_by j d true h f = omega (arith, same s.next_id j h, room)
    given_by j d false h f = omega (arith, w.given j d f, room)

    well_by :
        (j : ℕ) (d : Behavior) (hit : Bool)
        → (if hit then some entry else find j s.behaviors) ≡ some d
        → IsWell d
    well_by j d true f = subst IsWell (only d f) (record { typed = t; valid = v; reached = stays })
    well_by j d false f = w.well j d f
