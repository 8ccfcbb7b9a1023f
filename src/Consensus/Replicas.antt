-- ===== src/Consensus/Replicas.antt =====
-- What the replicas of a log agree on.
use fipa_wasm.Base.{
  ℕ, String, List, [], ◌∷◌, ◌++◌, map, length, ◌≡◌, refl, sym, ap, ◌∙◌, Option, none, some, ◌=s=◌,
  inl, inr, Bool-cases,
}
use fipa_wasm.Base.Dict.{Dict, get, insert, remove}
use fipa_wasm.Base.Int.{ℤ, pos}
use fipa_wasm.Consensus.{
  AgentLocation, ServiceEntry, StateRequest, StateResponse, ClusterState, register_agent,
  unregister_agent, register_service, unregister_service, query_agent, query_services, done, agent,
  services_found, error, or_empty, retain, unregister, apply,
}

-- Without what a replica reads off its own clock, and its own number.
abbrev pub shared_location : AgentLocation → AgentLocation
shared_location l = record l { updated_at = pos 0 }

abbrev pub shared_entry : ServiceEntry → ServiceEntry
shared_entry e = record e { node_id = 0; registered_at = pos 0 }

abbrev pub values_by {ℓ κ} : {A : Type ℓ} {B : Type κ} → (A → B) → Dict A → Dict B
values_by f [] = []
values_by f ((k, v) ∷ m) = (k, f v) ∷ values_by f m

abbrev pub shared : ClusterState → ClusterState
shared s = record {
  agents = values_by shared_location s.agents;
  services = values_by (map shared_entry) s.services;
}

abbrev pub shared_option {ℓ κ} : {A : Type ℓ} {B : Type κ} → (A → B) → Option A → Option B
shared_option f none = none
shared_option f (some a) = some (f a)

abbrev pub shared_response : StateResponse → StateResponse
shared_response done = done
shared_response (agent o) = agent (shared_option shared_location o)
shared_response (services_found es) = services_found (map shared_entry es)
shared_response (error m) = error m

module _ {ℓ κ} {A : Type ℓ} {B : Type κ} (f : A → B) where
  values_by-get : (k : String) (m : Dict A) → get k (values_by f m) ≡ shared_option f (get k m)
  unfolding get
  values_by-get k [] = refl
  values_by-get k ((j, v) ∷ m) = elim (Bool-cases (j =s= k)) [
    | inl e ↦ rw e refl
    | inr e ↦ rw e (values_by-get k m)
  ]

  values_by-insert :
      (k : String) (v : A) (m : Dict A)
      → values_by f (insert k v m) ≡ insert k (f v) (values_by f m)
  unfolding insert
  values_by-insert k v [] = refl
  values_by-insert k v ((j, w) ∷ m) = elim (Bool-cases (j =s= k)) [
    | inl e ↦ rw e refl
    | inr e ↦ rw e (ap (λ (n : Dict B). (j, f w) ∷ n) (values_by-insert k v m))
  ]

  values_by-remove : (k : String) (m : Dict A) → values_by f (remove k m) ≡ remove k (values_by f m)
  unfolding remove
  values_by-remove k [] = refl
  values_by-remove k ((j, w) ∷ m) = elim (Bool-cases (j =s= k)) [
    | inl e ↦ rw e (values_by-remove k m)
    | inr e ↦ rw e (ap (λ (n : Dict B). (j, f w) ∷ n) (values_by-remove k m))
  ]

shared-retain :
    (provider : String) (es : List ServiceEntry)
    → map shared_entry (retain provider es) ≡ retain provider (map shared_entry es)
shared-retain provider [] = refl
shared-retain provider (e ∷ es) = elim (Bool-cases (e.provider =s= provider)) [
  | inl h ↦ rw h (shared-retain provider es)
  | inr h ↦ rw h (ap (λ (l : List ServiceEntry). shared_entry e ∷ l) (shared-retain provider es))
]

shared-append :
    (xs ys : List ServiceEntry)
    → map shared_entry (xs ++ ys) ≡ map shared_entry xs ++ map shared_entry ys
shared-append [] ys = refl
shared-append (x ∷ xs) ys = ap (λ (l : List ServiceEntry). shared_entry x ∷ l) (shared-append xs ys)

shared-or_empty :
    (o : Option (List ServiceEntry))
    → map shared_entry (or_empty o) ≡ or_empty (shared_option (map shared_entry) o)
shared-or_empty none = refl
shared-or_empty (some es) = refl

abbrev with_services : ClusterState → Dict (List ServiceEntry) → ClusterState
with_services s m = record { agents = values_by shared_location s.agents; services = m }

abbrev with_agents : ClusterState → Dict AgentLocation → ClusterState
with_agents s m = record { agents = m; services = values_by (map shared_entry) s.services }

shared-unregister :
    (service_type provider : String) (o : Option (List ServiceEntry)) (s : ClusterState)
    → shared (unregister service_type provider o s)
      ≡ unregister service_type provider (shared_option (map shared_entry) o) (shared s)
shared-unregister service_type provider none s = refl
shared-unregister service_type provider (some es) s = ap (with_services s) (
    values_by-insert (map shared_entry) service_type (retain provider es) s.services
    ∙ ap
        (λ (l : List ServiceEntry). insert service_type l (values_by (map shared_entry) s.services))
        (shared-retain provider es))

-- A request does to what is shared what it does to the state, whoever applies it and when.
shared-apply :
    (now : ℤ) (node : ℕ) (q : StateRequest) (s : ClusterState)
    → (shared (apply now node q s).0 ≡ (apply (pos 0) 0 q (shared s)).0)
      × (shared_response (apply now node q s).1 ≡ (apply (pos 0) 0 q (shared s)).1)
unfolding apply
shared-apply now node (register_agent fingerprint n capabilities) s =
    (ap (with_agents s) (values_by-insert shared_location fingerprint _ s.agents), refl)
shared-apply now node (unregister_agent fingerprint) s =
    (ap (with_agents s) (values_by-remove shared_location fingerprint s.agents), refl)
shared-apply now node (register_service service_type name provider properties) s =
    let old = or_empty (get service_type s.services) in
    let kept =
      shared-append (retain provider old) (entry node now ∷ [])
      ∙ ap (λ (l : List ServiceEntry). l ++ entry 0 (pos 0) ∷ [])
          (shared-retain provider old
            ∙ ap (retain provider) (
                shared-or_empty (get service_type s.services)
                ∙ ap or_empty (sym (values_by-get (map shared_entry) service_type s.services)))) in
    (
      ap (with_services s) (
          values_by-insert (map shared_entry) service_type _ s.services
          ∙ ap
              (λ (l : List ServiceEntry).
                insert service_type l (values_by (map shared_entry) s.services))
              kept),
      refl,
    )
  where
    entry : ℕ → ℤ → ServiceEntry
    entry n t = record {
      service_type = service_type;
      name = name;
      provider = provider;
      node_id = n;
      properties = properties;
      registered_at = t;
    }
shared-apply now node (unregister_service service_type provider) s = (
  shared-unregister service_type provider (get service_type s.services) s
      ∙ ap (λ (o : Option (List ServiceEntry)). unregister service_type provider o (shared s))
          (sym (values_by-get (map shared_entry) service_type s.services)),
  refl,
)
shared-apply now node (query_agent fingerprint) s =
    (refl, ap agent (sym (values_by-get shared_location fingerprint s.agents)))
shared-apply now node (query_services service_type) s = (
  refl,
  ap services_found (
      shared-or_empty (get service_type s.services)
      ∙ ap or_empty (sym (values_by-get (map shared_entry) service_type s.services))),
)

-- A replica applies the log, each request at the time that its clock shows; `clock` gives the time by
-- how many requests are left.
abbrev pub replay : (ℕ → ℤ) → ℕ → List StateRequest → ClusterState → ClusterState
replay clock node [] s = s
replay clock node (q ∷ log) s = replay clock node log (apply (clock (length log)) node q s).0

shared-replay :
    (clock : ℕ → ℤ) (node : ℕ) (log : List StateRequest) (s : ClusterState)
    → shared (replay clock node log s) ≡ replay (λ (n : ℕ). pos 0) 0 log (shared s)
shared-replay clock node [] s = refl
shared-replay clock node (q ∷ log) s =
    shared-replay clock node log (apply (clock (length log)) node q s).0
    ∙ ap (replay (λ (n : ℕ). pos 0) 0 log) (shared-apply (clock (length log)) node q s).0

-- Two replicas that have applied one log agree on everything but the timestamps and the nodes of the
-- services, and so do their answers to a further request.
pub replay-agrees :
    (clock clock' : ℕ → ℤ) (now now' : ℤ) (node node' : ℕ) (log : List StateRequest)
    (q : StateRequest) (s : ClusterState)
    → let a = replay clock node log s in
      let b = replay clock' node' log s in
      (shared a ≡ shared b)
      × (shared_response (apply now node q a).1 ≡ shared_response (apply now' node' q b).1)
replay-agrees clock clock' now now' node node' log q s =
    let same = shared-replay clock node log s ∙ sym (shared-replay clock' node' log s) in
    let a = replay clock node log s in
    let b = replay clock' node' log s in
    (
      same,
      (shared-apply now node q a).1
          ∙ ap (λ (t : ClusterState). (apply (pos 0) 0 q t).1) same
          ∙ sym (shared-apply now' node' q b).1,
    )

-- Where the last service of a type is hosted.
abbrev pub last_node : List ServiceEntry → ℕ
last_node [] = 0
last_node (e ∷ []) = e.node_id
last_node (e ∷ d ∷ es) = last_node (d ∷ es)
