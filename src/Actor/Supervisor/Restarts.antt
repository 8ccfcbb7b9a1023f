-- ===== src/Actor/Supervisor/Restarts.antt =====
-- What the restarts of an agent remember.
use fipa_wasm.Base.{ℕ, ◌≡◌, refl, ◌∙◌, List, [], ◌∷◌, Option, none, some, true, eq_iff, String}
use fipa_wasm.Base.Dict.{Dict, get, remove, get-remove}
use fipa_wasm.Base.Result.{Result}
use fipa_wasm.Acl.{AgentId}
use fipa_wasm.Actor.{Addr, AgentError, AgentRuntimeState, event_started, event_failed}
use fipa_wasm.Actor.Supervisor.{
  Numbers, AgentConfig, SupervisedAgent, Supervisor, ShutdownReason, fresh, restart, respawn,
  handle_event, stop_agent, stop_by,
}

-- One failure and what follows it: when it comes, the address of the actor that is started, and when
-- that actor says that it has started, if it does.
pub record Cycle : Type 0 where
  pub failed_at : ℕ
  pub addr : Addr
  pub started_at : Option ℕ

get_removed {ℓ} : {V : Type ℓ} (k : String) (m : Dict V) → get k (remove k m) ≡ none
get_removed k m = get-remove k k m ∙ rw ((eq_iff k k).1 refl)

module _ (f : Numbers) (build : AgentConfig f → Result AgentError (Unit {0})) where
  -- An entry as it is after any start.
  abbrev pub steady : AgentConfig f → Addr → AgentRuntimeState → SupervisedAgent f
  steady c addr state = record (fresh f c addr) { state = state }

  -- The new actor says that it has started, unless its initialisation fails too.
  abbrev pub announce : AgentConfig f → Option ℕ → Supervisor f → Supervisor f
  announce c none s = s
  announce c (some now) s = handle_event f now c.id event_started s

  -- The agent fails and says so, and is restarted.
  abbrev pub cycle : AgentConfig f → Supervisor f → Cycle → Supervisor f
  cycle c s x =
      announce c x.started_at
        (restart f build x.addr c.id (handle_event f x.failed_at c.id (event_failed "init" true) s))

  abbrev pub cycles : AgentConfig f → Supervisor f → List Cycle → Supervisor f
  cycles c s [] = s
  cycles c s (x ∷ xs) = cycles c (cycle c s x) xs

  -- An agent that is stopped while its restart is pending stays stopped.
  pub stop_cancels_restart :
      (addr : Addr) (agent_id : AgentId) (reason : ShutdownReason) (s : Supervisor f)
      → let q = (stop_agent f agent_id reason s).0 in restart f build addr agent_id q ≡ q
  unfolding stop_agent stop_by restart respawn
  stop_cancels_restart addr agent_id reason s = branches (get agent_id.name s.agents) refl
    where
      branches :
          (o : Option (SupervisedAgent f))
          → get agent_id.name s.agents ≡ o
          → let q = (stop_by f agent_id reason o s).0 in restart f build addr agent_id q ≡ q
      branches none g = rw g refl
      branches (some a) g = rw (get_removed agent_id.name s.agents) refl
