-- ===== src/Behavior/Scheduler/Soundness.antt =====
-- What holds of every behaviour of a scheduler.
use mathlib.Core.List.{Memᴰ}
use fipa_wasm.Base.{
  ℕ, ◌<◌, String, List, ◌≡◌, refl, sym, ◌∙◌, subst, Option, none, some, Bool, true, false, ◌==◌,
  arith, if◌then◌else◌,
}
use fipa_wasm.Base.Table.{find, take_out, find-put, find-take_out}
use fipa_wasm.Base.Result.{Result, ok, err}
use fipa_wasm.Behavior.{Behavior, BehaviorError, FsmTransition}
use fipa_wasm.Behavior.Scheduler.{
  BehaviorScheduler, Answer, flaw, with_found, put_back, remove_found,
}

-- The states that the transitions lead to from an initial one.
pub data Reaches (ts : List FsmTransition) (initial : Option String) : Option String → Type 0 where
  stays : Reaches ts initial initial
  moves :
      {current : Option String} (t : FsmTransition)
      → Reaches ts initial current
      → current ≡ some t.from_state
      → Memᴰ t ts
      → Reaches ts initial (some t.to_state)

pub record IsWell (b : Behavior) : Type 0 where
  pub typed : b.config.behavior_type ≡ some b.behavior_type
  pub valid : flaw b.behavior_type b.config ≡ none
  pub reached : Reaches b.config.fsm_transitions b.config.fsm_initial_state b.fsm_current_state

pub record IsSound (s : BehaviorScheduler) : Type 0 where
  pub own_id : (id : ℕ) (b : Behavior) → find id s.behaviors ≡ some b → b.id ≡ id
  pub given : (id : ℕ) (b : Behavior) → find id s.behaviors ≡ some b → id < s.next_id
  pub well : (id : ℕ) (b : Behavior) → find id s.behaviors ≡ some b → IsWell b

-- A change of a behaviour that these facts survive.
pub record Keeps (b c : Behavior) : Type 0 where
  pub same_id : c.id ≡ b.id
  pub still : IsWell b → IsWell c

abbrev pub IsKeeping : (Behavior → Result BehaviorError Behavior) → Type 0
IsKeeping f = (b c : Behavior) → f b ≡ ok c → Keeps b c

pub ok_inj : {b c : Behavior} → ◌≡◌ {A = Result BehaviorError Behavior} (ok b) (ok c) → b ≡ c
ok_inj e = cc

-- Changing other fields keeps them.
module _ (s : BehaviorScheduler) (id : ℕ) where
  replaced :
      (b c : Behavior)
      → find id s.behaviors ≡ some b
      → Keeps b c
      → IsSound s
      → IsSound (put_back id c s)
  replaced b c e k w = record {
    own_id = λ (j : ℕ) (d : Behavior) (f : find j (put_back id c s).behaviors ≡ some d).
        by_id j d (id == j) refl (sym (find-put id j c s.behaviors) ∙ f);
    given = λ (j : ℕ) (d : Behavior) (f : find j (put_back id c s).behaviors ≡ some d).
        given_by j d (id == j) refl (sym (find-put id j c s.behaviors) ∙ f);
    well = λ (j : ℕ) (d : Behavior) (f : find j (put_back id c s).behaviors ≡ some d).
        well_by j d (id == j) (sym (find-put id j c s.behaviors) ∙ f);
  }
    where
      same : (m n : ℕ) → (m == n) ≡ true → m ≡ n
      same m n h = ground arith

      only : (d : Behavior) → some c ≡ some d → c ≡ d
      only d h = cc

      by_id :
          (j : ℕ) (d : Behavior) (hit : Bool)
          → (id == j) ≡ hit
          → (if hit then some c else find j s.behaviors) ≡ some d
          → d.id ≡ j
      by_id j d true h f =
          subst (λ (x : Behavior). x.id ≡ j) (only d f) (k.same_id ∙ w.own_id id b e ∙ same id j h)
      by_id j d false h f = w.own_id j d f

      given_by :
          (j : ℕ) (d : Behavior) (hit : Bool)
          → (id == j) ≡ hit
          → (if hit then some c else find j s.behaviors) ≡ some d
          → j < s.next_id
      given_by j d true h f = omega (arith, w.given id b e, same id j h)
      given_by j d false h f = w.given j d f

      well_by :
          (j : ℕ) (d : Behavior) (hit : Bool)
          → (if hit then some c else find j s.behaviors) ≡ some d
          → IsWell d
      well_by j d true f = subst IsWell (only d f) (k.still (w.well id b e))
      well_by j d false f = w.well j d f

  pub with_found-IsSound :
      (f : Behavior → Result BehaviorError Behavior) (o : Option Behavior)
      → IsKeeping f
      → find id s.behaviors ≡ o
      → IsSound s
      → IsSound (with_found id f o s).0
  with_found-IsSound f none k e w = w
  with_found-IsSound f (some b) k e w = by_result (f b) refl
    where
      by_result :
          (r : Result BehaviorError Behavior)
          → f b ≡ r
          → IsSound
              (elim r as (λ x. Answer) [ err e ↦ (s, err e) | ok c ↦ (put_back id c s, ok tt) ]).0
      by_result (err x) q = w
      by_result (ok c) q = replaced b c e (k b c q) w

  pub remove_found-IsSound : (o : Option Behavior) → IsSound s → IsSound (remove_found id o s).0
  remove_found-IsSound none w = w
  remove_found-IsSound (some b) w = record {
    own_id = λ (j : ℕ) (d : Behavior) (f : find j (take_out id s.behaviors) ≡ some d).
        w.own_id j d (kept j d f);
    given = λ (j : ℕ) (d : Behavior) (f : find j (take_out id s.behaviors) ≡ some d).
        w.given j d (kept j d f);
    well = λ (j : ℕ) (d : Behavior) (f : find j (take_out id s.behaviors) ≡ some d).
        w.well j d (kept j d f);
  }
    where
      there :
          (hit : Bool) (o : Option Behavior) (d : Behavior)
          → (if hit then none else o) ≡ some d
          → o ≡ some d
      there true o d h = cc
      there false o d h = h

      kept :
          (j : ℕ) (d : Behavior)
          → find j (take_out id s.behaviors) ≡ some d
          → find j s.behaviors ≡ some d
      kept j d f = there (id == j) (find j s.behaviors) d (sym (find-take_out id j s.behaviors) ∙ f)
