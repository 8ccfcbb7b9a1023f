-- ===== src/Platform/Ams/Handlers/Refinement.antt =====
-- The orders to destroy, suspend and resume an agent, against the life cycle that they mean.
use fipa_wasm.Base.{
  String, ◌≡◌, refl, ap, ◌∙◌, Option, none, some, Bool, true, not, ◌||◌, is_some, ◌=s=◌, ◌<>◌,
  arith, if◌then◌else◌, inl, inr, Bool-cases,
}
use fipa_wasm.Base.Dict.{get, insert, get-insert}
use fipa_wasm.Base.Result.{Result, ok, err}
use fipa_wasm.Actor.Supervisor.{Numbers}
use fipa_wasm.Platform.Ams.{
  Ams, AmsConfig, AmsError, AgentState, AgentRegistration, active, suspended, terminated,
  same_state, state_name, agent_not_found, invalid_state, unauthorized,
}
use fipa_wasm.Platform.Ams.Handlers.{
  Targeted, same_owner, with_state, may_destroy, destroy_agent, destroy_found, suspend_agent,
  suspend_found, resume_agent, resume_found,
}

-- What a client sees of an agent: its state and its owner.
abbrev pub View : Type 0
View = AgentState × Option String

abbrev pub seen : Option AgentRegistration → Option View
seen none = none
seen (some reg) = some (reg.state, reg.owner)

abbrev pub view : Ams → String → Option View
view a name = seen (get name a.agents)

pub data Order : Type 0 where
  destroying suspending resuming : Order

abbrev pub order : Numbers → Order → Targeted → Ams → Ams × Result AmsError (Unit {0})
order f destroying t a = let r = destroy_agent f a t in (r.0, r.2)
order f suspending t a = suspend_agent a t
order f resuming t a = resume_agent a t

-- The life cycle.
abbrev pub owned_by : AmsConfig → Option String → Option String → Bool
owned_by config requester owner =
    not config.require_auth || not (is_some owner) || same_owner requester owner

abbrev pub verdict : AmsConfig → Order → Targeted → Option View → Result AmsError View
verdict config o t none = err (agent_not_found t.agent_name)
verdict config destroying t (some (s, owner)) =
    if owned_by config t.requester owner then ok (terminated, owner) else err unauthorized
verdict config suspending t (some (s, owner)) =
    if same_state s active
    then ok (suspended, owner)
    else err (invalid_state ("Agent is " <> state_name s <> ", cannot suspend"))
verdict config resuming t (some (s, owner)) =
    if same_state s suspended
    then ok (active, owner)
    else err (invalid_state ("Agent is " <> state_name s <> ", cannot resume"))

abbrev pub answer_of : Result AmsError View → Result AmsError (Unit {0})
answer_of (ok v) = ok tt
answer_of (err e) = err e

abbrev pub view_of : Result AmsError View → Option View → Option View
view_of (ok v) before = some v
view_of (err e) before = before

-- What one order does, by the registration that it finds.
abbrev Follows : Order → Targeted → Ams → Ams × Result AmsError (Unit {0}) → Option View → Type 0
Follows o t a r v =
    (r.1 ≡ answer_of (verdict a.config o t v))
    × ((name : String)
        → view r.0 name ≡ (
            if t.agent_name =s= name
            then view_of (verdict a.config o t v) (view a name)
            else view a name))

seen_entry :
    (a : Ams) (key name : String) (reg : AgentRegistration)
    → seen (get name (insert key reg a.agents))
      ≡ (if key =s= name then some (reg.state, reg.owner) else view a name)
seen_entry a key name reg = ap seen (get-insert key name reg a.agents) ∙ (ground arith)

unchanged :
    (a : Ams) (key name : String)
    → view a name ≡ (if key =s= name then view a name else view a name)
unchanged a key name = ground arith

destroys :
    (f : Numbers) (t : Targeted) (a : Ams) (o : Option AgentRegistration)
    → let r = destroy_found f a t o in Follows destroying t a (r.0, r.2) (seen o)
destroys f t a none = (refl, unchanged a t.agent_name)
destroys f t a (some reg) = elim (Bool-cases (may_destroy a.config t.requester reg)) [
  | inl e ↦
      rw (allowed reg, e)
        (refl, λ (name : String). seen_entry a t.agent_name name (with_state terminated reg))
  | inr e ↦ rw (allowed reg, e) (refl, unchanged a t.agent_name)
]
  where
    allowed :
        (reg : AgentRegistration)
        → owned_by a.config t.requester reg.owner ≡ may_destroy a.config t.requester reg
    allowed reg = by_owner reg.owner
      where
        by_owner :
            (o : Option String)
            → owned_by a.config t.requester o ≡ (elim o [
              | none ↦ true
              | some owner ↦ not a.config.require_auth || same_owner t.requester (some owner)
            ])
        by_owner none = ground arith
        by_owner (some s) = ground arith

suspends :
    (t : Targeted) (a : Ams) (o : Option AgentRegistration)
    → Follows suspending t a (suspend_found a t.agent_name o) (seen o)
suspends t a none = (refl, unchanged a t.agent_name)
suspends t a (some reg) = elim (Bool-cases (same_state reg.state active)) [
  | inl e ↦
      rw e (refl, λ (name : String). seen_entry a t.agent_name name (with_state suspended reg))
  | inr e ↦ rw e (refl, unchanged a t.agent_name)
]

resumes :
    (t : Targeted) (a : Ams) (o : Option AgentRegistration)
    → Follows resuming t a (resume_found a t.agent_name o) (seen o)
resumes t a none = (refl, unchanged a t.agent_name)
resumes t a (some reg) = elim (Bool-cases (same_state reg.state suspended)) [
  | inl e ↦ rw e (refl, λ (name : String). seen_entry a t.agent_name name (with_state active reg))
  | inr e ↦ rw e (refl, unchanged a t.agent_name)
]

-- An order to destroy, suspend or resume an agent is answered, and changes what is seen of the agents,
-- as the life cycle says. Only an agent that is registered is changed; where authentication is
-- required, only its owner destroys an agent that has one; only an active agent is suspended, and only
-- a suspended one is resumed, whoever asks. No other agent is changed, nor does an agent lose its
-- owner.
pub order-verdict :
    (f : Numbers) (o : Order) (t : Targeted) (a : Ams)
    → let v = verdict a.config o t (view a t.agent_name) in
      let r = order f o t a in
      (r.1 ≡ answer_of v)
      × ((name : String)
          → view r.0 name
            ≡ (if t.agent_name =s= name then view_of v (view a name) else view a name))
unfolding destroy_agent suspend_agent resume_agent
order-verdict f destroying t a = destroys f t a (get t.agent_name a.agents)
order-verdict f suspending t a = suspends t a (get t.agent_name a.agents)
order-verdict f resuming t a = resumes t a (get t.agent_name a.agents)
