-- ===== src/Platform/Df.antt =====
-- crates/fipa-wasm-agents/src/platform/df.rs: the yellow pages. Instants are those of the clock that a
-- call reads. A `HashSet` of names is a list to which a name is added once.
pub mod Index
pub mod Search
pub mod Removal
pub mod Limits
mod Examples
use fipa_wasm.Base.{
  ℕ, zero, suc, ◌+◌, ◌%◌, ◌^◌, String, List, [], ◌∷◌, ◌++◌, map, filter, length, any, all, is_empty,
  Option, none, some, Bool, true, false, not, ◌&&◌, ◌||◌, ltb, leb, ◌=s=◌, ◌<>◌, ◌==◌,
  if◌then◌else◌,
}
use fipa_wasm.Base.Dict.{Dict, HashOrder, get, insert, remove}
use fipa_wasm.Base.Int.{ℤ, eqb_ℤ}
use fipa_wasm.Base.Result.{Result, ok, err}
use fipa_wasm.Base.Text.{contains}
use fipa_wasm.Acl.{AgentId, ServiceDescription, ProtocolType}
use fipa_wasm.Acl.Capabilities.{protocol_i32}
use fipa_wasm.Actor.{next_u64}

pub record DfConfig : Type 0 where
  pub platform_name : String
  pub max_services_per_agent : ℕ
  pub max_total_services : ℕ
  pub federated_dfs : List String

abbrev pub default_config : DfConfig
default_config = record {
  platform_name = "fipa-platform";
  max_services_per_agent = 100;
  max_total_services = 10000;
  federated_dfs = [];
}

pub record ServiceRegistration : Type 0 where
  pub service : ServiceDescription
  pub owner : AgentId
  pub registered_at : ℕ
  pub lease_until : Option ℕ

pub record SearchFilter : Type 0 where
  pub name : Option String
  pub protocol : Option ProtocolType
  pub ontology : Option String
  pub owner : Option String
  pub properties : Dict String

pub record DfSubscription : Type 0 where
  pub subscriber : AgentId
  pub filter : SearchFilter
  pub created_at : ℕ

pub record DfStats : Type 0 where
  pub registrations : ℕ
  pub deregistrations : ℕ
  pub searches : ℕ
  pub search_results : ℕ
  pub notifications_sent : ℕ

pub record Df : Type 0 where
  pub config : DfConfig
  pub services : Dict (List ServiceRegistration)
  pub agent_services : Dict (List String)
  pub subscriptions : Dict DfSubscription
  pub agent_id : AgentId
  pub stats : DfStats

abbrev pub new_df : DfConfig → Df
new_df config = record {
  config = config;
  services = [];
  agent_services = [];
  subscriptions = [];
  agent_id = record {
    name = "df";
    addresses = ("df@" <> config.platform_name) ∷ [];
    resolvers = [];
  };
  stats = record {
    registrations = 0;
    deregistrations = 0;
    searches = 0;
    search_results = 0;
    notifications_sent = 0;
  };
}

pub data DfError : Type 0 where
  service_not_found : String → DfError
  agent_service_limit_reached total_service_limit_reached : DfError
  invalid_service : String → DfError
  subscription_not_found : DfError

abbrev pub asked_for {ℓ} : {A : Type ℓ} → Option A → (A → Bool) → Bool
asked_for none test = true
asked_for (some x) test = test x

-- `matches_filter`. Neither `any` nor `all` depends on the order of the properties.
pub matches_filter : ServiceDescription → AgentId → SearchFilter → Bool
matches_filter service owner filter =
    asked_for filter.name (λ (n : String). contains n service.name)
    && asked_for filter.protocol
        (λ (p : ProtocolType). any (λ (q : ℤ). eqb_ℤ q (protocol_i32 p)) service.protocols)
    && asked_for filter.ontology (λ (o : String). service.ontology =s= o)
    && asked_for filter.owner (λ (o : String). owner.name =s= o)
    && all
        (λ (e : String × String).
          any (λ (p : String × String). p.0 =s= e.0 && p.1 =s= e.1) service.properties)
        filter.properties

-- `notifications_sent += 1` for each subscription that passes the test.
abbrev notify : (DfSubscription → Bool) → Dict DfSubscription → ℕ → ℕ
notify test [] sent = sent
notify test ((name, s) ∷ subs) sent = notify test subs (if test s then next_u64 sent else sent)

abbrev dummy_owner : AgentId
dummy_owner = record { name = ""; addresses = []; resolvers = [] }

abbrev pub notify_subscribers : ServiceDescription → Df → Df
unfolding matches_filter
notify_subscribers service d = record d {
  stats = record d.stats {
    notifications_sent =
        notify (λ (s : DfSubscription). matches_filter service dummy_owner s.filter) d.subscriptions
          d.stats.notifications_sent;
  };
}

abbrev notify_subscribers_deregister : String → Df → Df
notify_subscribers_deregister service_name d = record d {
  stats = record d.stats {
    notifications_sent =
        notify
          (λ (s : DfSubscription).
            asked_for s.filter.name (λ (n : String). contains n service_name))
          d.subscriptions d.stats.notifications_sent;
  };
}

-- `entry(..).or_insert_with(..)`: what a key has, or nothing.
abbrev pub list_of {ℓ} : {A : Type ℓ} → Option (List A) → List A
list_of none = []
list_of (some xs) = xs

abbrev pub total_count : Dict (List ServiceRegistration) → ℕ
total_count [] = 0
total_count ((name, rs) ∷ services) = length rs + total_count services

abbrev pub has_name : String → List String → Bool
has_name name names = any (λ (n : String). n =s= name) names

-- `insert` and `remove` of a `HashSet`.
abbrev pub insert_name : String → List String → List String
insert_name name names = if has_name name names then names else names ++ name ∷ []

abbrev pub remove_name : String → List String → List String
remove_name name names = filter (λ (n : String). not (n =s= name)) names

pub record Register : Type 0 where
  pub agent_id : AgentId
  pub service : ServiceDescription
  pub lease_duration : Option ℕ

pub record Deregister : Type 0 where
  pub agent_id : AgentId
  pub service_name : String

abbrev lease : ℕ → Option ℕ → Option ℕ
lease now none = none
lease now (some d) = some (now + d)

-- The clock is read for the registration, and once more for the lease.
abbrev pub registration : ℕ → ℕ → Register → ServiceRegistration
registration now later request = record {
  service = request.service;
  owner = request.agent_id;
  registered_at = now;
  lease_until = lease later request.lease_duration;
}

abbrev pub enter : ℕ → ℕ → Register → Df → Df
enter now later request d = record d {
  services =
      insert request.service.name
        (list_of (get request.service.name d.services) ++ registration now later request ∷ [])
        d.services;
  agent_services =
      insert request.agent_id.name
        (insert_name request.service.name (list_of (get request.agent_id.name d.agent_services)))
        d.agent_services;
  stats = record d.stats { registrations = next_u64 d.stats.registrations };
}

unfoldable pub register : ℕ → ℕ → Register → Df → Df × Result DfError (Unit {0})
unfolding notify_subscribers
register now later request d =
    if leb d.config.max_services_per_agent
      (length (list_of (get request.agent_id.name d.agent_services)))
    then (d, err agent_service_limit_reached)
    else if ltb 0 d.config.max_total_services
        && leb d.config.max_total_services (total_count d.services)
    then (d, err total_service_limit_reached)
    else (notify_subscribers request.service (enter now later request d), ok tt)

abbrev pub others : String → List ServiceRegistration → List ServiceRegistration
others agent_name rs = filter (λ (r : ServiceRegistration). not (r.owner.name =s= agent_name)) rs

abbrev pub put_or_remove {ℓ} : {A : Type ℓ} → String → List A → Dict (List A) → Dict (List A)
put_or_remove key xs m = if is_empty xs then remove key m else insert key xs m

abbrev drop_name : String → String → Option (List String) → Dict (List String) → Dict (List String)
drop_name agent_name service_name none m = m
drop_name agent_name service_name (some names) m =
    put_or_remove agent_name (remove_name service_name names) m

abbrev pub leave : String → String → List ServiceRegistration → Df → Df
leave agent_name service_name rs d = record d {
  services = put_or_remove service_name (others agent_name rs) d.services;
  agent_services =
      drop_name agent_name service_name (get agent_name d.agent_services) d.agent_services;
  stats = record d.stats { deregistrations = next_u64 d.stats.deregistrations };
}

abbrev deregister_found :
    Deregister → Df → Option (List ServiceRegistration) → Df × Result DfError (Unit {0})
deregister_found request d none = (d, err (service_not_found request.service_name))
deregister_found request d (some rs) =
    if length (others request.agent_id.name rs) == length rs
    then (d, err (service_not_found request.service_name))
    else (
      notify_subscribers_deregister request.service_name
          (leave request.agent_id.name request.service_name rs d),
      ok tt,
    )

unfoldable pub deregister : Deregister → Df → Df × Result DfError (Unit {0})
deregister request d = deregister_found request d (get request.service_name d.services)

-- `DFModify`: what deregistering answers is dropped.
pub modify : ℕ → ℕ → AgentId → ServiceDescription → Df → Df × Result DfError (Unit {0})
unfolding register deregister
modify now later agent_id service d =
    register now later (record { agent_id = agent_id; service = service; lease_duration = none })
      (deregister (record { agent_id = agent_id; service_name = service.name }) d).0
