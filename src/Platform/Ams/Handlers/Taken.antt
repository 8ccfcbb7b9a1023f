-- ===== src/Platform/Ams/Handlers/Taken.antt =====
-- What no call takes back.
use fipa_wasm.Base.{
  ℕ, ◌≤◌, String, List, [], ◌∷◌, length, ◌≡◌, refl, ap, ◌∙◌, Option, none, some, true, false, arith,
  if◌then◌else◌, inl, inr, Bool-cases, eq_iff,
}
use fipa_wasm.Base.Dict.{Dict, HashOrder, get, insert, contains_key}
use fipa_wasm.Base.Result.{err}
use fipa_wasm.Actor.Supervisor.{Numbers}
use fipa_wasm.Acl.{AgentId}
use fipa_wasm.Platform.Ams.{
  Ams, Creation, AgentRegistration, is_name_available, generate_unique_name,
}
use fipa_wasm.Platform.Ams.Handlers.{
  Answer, CreateAgent, QueryAgents, Targeted, extract, create_agent, create_named, create_generated,
  end_creation, with_state, may_destroy, destroy_agent, destroy_found, suspend_agent, suspend_found,
  resume_agent, resume_found, query_agents, name_not_available, same_state, active, suspended,
  terminated,
}
use fipa_wasm.Platform.Ams.Handlers.Refinement.{Order, destroying, suspending, resuming, order}

pub data Call : Type 0 where
  creating : CreateAgent → Call
  -- The instant, and the place of the future that ends.
  ending : ℕ → ℕ → Call
  ordering : Order → Targeted → Call
  querying : QueryAgents → Call

abbrev pub after_creation : (f : Numbers) → Ams → Option (Answer f AgentId) → Ams
after_creation f a none = a
after_creation f a (some r) = r.0

abbrev pub end_extracted : ℕ → Ams → Option (Creation × List Creation) → Ams
unfolding end_creation
end_extracted now a none = a
end_extracted now a (some (c, cs)) = end_creation now c (record a { creations = cs })

abbrev pub perform : HashOrder → Numbers → Call → Ams → Ams
unfolding create_agent extract end_extracted
perform h f (creating request) a = after_creation f a (create_agent f a request)
perform h f (ending now i) a = end_extracted now a (extract i a.creations)
perform h f (ordering o t) a = (order f o t a).0
perform h f (querying q) a = (query_agents h a q).0

abbrev pub performs : HashOrder → Numbers → List Call → Ams → Ams
unfolding perform
performs h f [] a = a
performs h f (call ∷ calls) a = performs h f calls (perform h f call a)

-- The agents stay entered.
record Keeps (a b : Ams) : Type 0 where
  names : (name : String) → contains_key name a.agents ≡ true → contains_key name b.agents ≡ true
  number : length a.agents ≤ length b.agents

insert-length :
    (name : String) (reg : AgentRegistration) (m : Dict AgentRegistration)
    → length m ≤ length (insert name reg m)
unfolding insert
insert-length name reg [] = omega arith
insert-length name reg ((k, r) ∷ m) = ground (arith, insert-length name reg m)

insert-contains_key :
    (key : String) (reg : AgentRegistration) (m : Dict AgentRegistration) (name : String)
    → contains_key name m ≡ true
    → contains_key name (insert key reg m) ≡ true
unfolding insert contains_key
insert-contains_key key reg [] name h = cc
insert-contains_key key reg ((k, r) ∷ m) name h =
    ground (arith, insert-contains_key key reg m name, eq_iff k key, eq_iff k name, eq_iff key name)

same_agents : (a b : Ams) → b.agents ≡ a.agents → Keeps a b
same_agents a b e = record {
  names = λ (name : String) (h : contains_key name a.agents ≡ true). ap (contains_key name) e ∙ h;
  number = omega (arith, ap (λ (m : Dict AgentRegistration). length m) e);
}

one_entered :
    (a b : Ams) (key : String) (reg : AgentRegistration)
    → b.agents ≡ insert key reg a.agents
    → Keeps a b
one_entered a b key reg e = record {
  names = λ (name : String) (h : contains_key name a.agents ≡ true).
      ap (contains_key name) e ∙ insert-contains_key key reg a.agents name h;
  number =
      omega
        (arith, ap (λ (m : Dict AgentRegistration). length m) e, insert-length key reg a.agents);
}

create_named-Keeps :
    (f : Numbers) (a : Ams) (r : CreateAgent) (name : String) → Keeps a (create_named f a r name).0
unfolding create_named
create_named-Keeps f a r name = same_agents a (create_named f a r name).0 (ground arith)

create_agent-Keeps :
    (f : Numbers) (a : Ams) (r : CreateAgent) → Keeps a (after_creation f a (create_agent f a r))
unfolding create_agent create_generated
create_agent-Keeps f a r = by_name r.name
  where
    by_generated : (o : Option String) → Keeps a (after_creation f a (create_generated f a r o))
    by_generated none = same_agents a a refl
    by_generated (some name) = create_named-Keeps f a r name

    by_name :
        (o : Option String)
        → Keeps a (
            after_creation f a (elim o [
              | some n ↦ some (
                  if is_name_available a n
                  then create_named f a r n
                  else (a, [], err (name_not_available n)))
              | none ↦ create_generated f a r (generate_unique_name a "agent")
            ]))
    by_name none = by_generated (generate_unique_name a "agent")
    by_name (some n) = elim (Bool-cases (is_name_available a n)) [
      | inl e ↦ rw e (create_named-Keeps f a r n)
      | inr e ↦ rw e (same_agents a a refl)
    ]

destroys-Keeps :
    (f : Numbers) (t : Targeted) (a : Ams) (o : Option AgentRegistration)
    → Keeps a (destroy_found f a t o).0
destroys-Keeps f t a none = same_agents a a refl
destroys-Keeps f t a (some reg) = elim (Bool-cases (may_destroy a.config t.requester reg)) [
  | inl e ↦ rw e (one_entered a _ t.agent_name (with_state terminated reg) refl)
  | inr e ↦ rw e (same_agents a a refl)
]

suspends-Keeps :
    (name : String) (a : Ams) (o : Option AgentRegistration) → Keeps a (suspend_found a name o).0
suspends-Keeps name a none = same_agents a a refl
suspends-Keeps name a (some reg) = elim (Bool-cases (same_state reg.state active)) [
  | inl e ↦ rw e (one_entered a _ name (with_state suspended reg) refl)
  | inr e ↦ rw e (same_agents a a refl)
]

resumes-Keeps :
    (name : String) (a : Ams) (o : Option AgentRegistration) → Keeps a (resume_found a name o).0
resumes-Keeps name a none = same_agents a a refl
resumes-Keeps name a (some reg) = elim (Bool-cases (same_state reg.state suspended)) [
  | inl e ↦ rw e (one_entered a _ name (with_state active reg) refl)
  | inr e ↦ rw e (same_agents a a refl)
]

ends-Keeps :
    (now : ℕ) (a : Ams) (o : Option (Creation × List Creation)) → Keeps a (end_extracted now a o)
unfolding end_extracted end_creation
ends-Keeps now a none = same_agents a a refl
ends-Keeps now a (some (c, cs)) = one_entered a _ c.name _ refl

perform-Keeps : (h : HashOrder) (f : Numbers) (call : Call) (a : Ams) → Keeps a (perform h f call a)
unfolding perform destroy_agent suspend_agent resume_agent
perform-Keeps h f (creating request) a = create_agent-Keeps f a request
perform-Keeps h f (ending now i) a = ends-Keeps now a (extract i a.creations)
perform-Keeps h f (ordering destroying t) a = destroys-Keeps f t a (get t.agent_name a.agents)
perform-Keeps h f (ordering suspending t) a =
    suspends-Keeps t.agent_name a (get t.agent_name a.agents)
perform-Keeps h f (ordering resuming t) a = resumes-Keeps t.agent_name a (get t.agent_name a.agents)
perform-Keeps h f (querying q) a = same_agents a _ refl

performs-Keeps :
    (h : HashOrder) (f : Numbers) (calls : List Call) (a : Ams) → Keeps a (performs h f calls a)
unfolding performs
performs-Keeps h f [] a = same_agents a a refl
performs-Keeps h f (call ∷ calls) a =
    let first = perform-Keeps h f call a in
    let rest = performs-Keeps h f calls (perform h f call a) in
    record {
      names = λ (name : String) (e : contains_key name a.agents ≡ true).
          rest.names name (first.names name e);
      number = omega (arith, first.number, rest.number);
    }

-- A name that is entered once is never available again, whatever calls follow, also calls that
-- destroy its agent; and the number of agents, which the limit is compared with, never falls.
pub performs-taken :
    (h : HashOrder) (f : Numbers) (calls : List Call) (a : Ams) (name : String)
    → contains_key name a.agents ≡ true
    → (is_name_available (performs h f calls a) name ≡ false)
      × (length a.agents ≤ length (performs h f calls a).agents)
unfolding is_name_available
performs-taken h f calls a name taken =
    let kept = performs-Keeps h f calls a in (rw (kept.names name taken) refl, kept.number)
