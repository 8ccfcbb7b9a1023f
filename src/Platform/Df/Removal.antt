-- ===== src/Platform/Df/Removal.antt =====
-- The index behind a deregistration, and behind all calls.
use fipa_wasm.Base.{
  ℕ, String, List, [], ◌∷◌, ◌≡◌, refl, sym, ap, ◌∙◌, Option, none, some, Bool, true, false, not,
  ◌&&◌, ◌=s=◌, ◌==◌, length, eq_iff, arith, if◌then◌else◌, inl, inr, Bool-cases,
}
use fipa_wasm.Base.Dict.{HashOrder, get}
use fipa_wasm.Acl.{AgentId, ServiceDescription}
use fipa_wasm.Platform.Df.{
  Df, DfConfig, DfSubscription, ServiceRegistration, SearchFilter, Register, Deregister, list_of,
  has_name, remove_name, others, drop_name, leave, register, deregister, deregister_found, modify,
  new_df,
}
use fipa_wasm.Platform.Df.Index.{
  owns, is_provided, is_listed, IsIndexed, list_of-put_or_remove, has_name-remove_name, owns-others,
  register-IsIndexed,
}
use fipa_wasm.Platform.Df.Search.{SearchRequest, search, subscribe, unsubscribe, unsubscribe_found}

listed-leave :
    (agent service : String) (rs : List ServiceRegistration) (d : Df) (a s : String)
    → is_listed (leave agent service rs d) a s
      ≡ is_listed d a s && not (agent =s= a && service =s= s)
listed-leave agent service rs d a s = by_entry (get agent d.agent_services) refl
  where
    by_name :
        (names : List String)
        → get agent d.agent_services ≡ some names
        → (same : Bool) → (agent =s= a) ≡ same
        → has_name s (if same then remove_name service names else list_of (get a d.agent_services))
          ≡ is_listed d a s && not (same && service =s= s)
    by_name names e true q =
        has_name-remove_name service s names
        ∙ ap (λ (xs : List String). has_name s xs && not (service =s= s)) (moved e q)
      where
        moved :
            get agent d.agent_services ≡ some names
            → (agent =s= a) ≡ true
            → names ≡ list_of (get a d.agent_services)
        moved e q =
            sym (ap list_of e)
            ∙ ap (λ (n : String). list_of (get n d.agent_services)) ((eq_iff agent a).0 q)
    by_name names e false q = ground arith

    nothing :
        get agent d.agent_services ≡ none
        → (same : Bool) → (agent =s= a) ≡ same
        → is_listed d a s ≡ is_listed d a s && not (same && service =s= s)
    nothing e true q =
        let gone =
          ap (λ (n : String). has_name s (list_of (get n d.agent_services)))
            (sym ((eq_iff agent a).0 q))
          ∙ ap (λ (o : Option (List String)). has_name s (list_of o)) e in
        ground (arith, gone)
    nothing e false q = ground arith

    by_entry :
        (o : Option (List String))
        → get agent d.agent_services ≡ o
        → has_name s (list_of (get a (drop_name agent service o d.agent_services)))
          ≡ is_listed d a s && not (agent =s= a && service =s= s)
    by_entry none e = nothing e (agent =s= a) refl
    by_entry (some names) e =
        ap (has_name s) (list_of-put_or_remove agent a (remove_name service names) d.agent_services)
        ∙ by_name names e (agent =s= a) refl

provided-leave :
    (agent service : String) (rs : List ServiceRegistration) (d : Df) (a s : String)
    → get service d.services ≡ some rs
    → is_provided (leave agent service rs d) a s
      ≡ is_provided d a s && not (agent =s= a && service =s= s)
provided-leave agent service rs d a s e =
    ap (owns a) (list_of-put_or_remove service s (others agent rs) d.services)
    ∙ by_name (service =s= s) refl
  where
    by_name :
        (same : Bool)
        → (service =s= s) ≡ same
        → owns a (if same then others agent rs else list_of (get s d.services))
          ≡ is_provided d a s && not (agent =s= a && same)
    by_name true q =
        owns-others agent a rs
        ∙ ap (λ (xs : List ServiceRegistration). owns a xs && not (agent =s= a))
            (sym (ap list_of e)
              ∙ ap (λ (n : String). list_of (get n d.services)) ((eq_iff service s).0 q))
        ∙ (ground arith)
    by_name false q = ground arith

deregister_found-IsIndexed :
    (q : Deregister) (d : Df) (o : Option (List ServiceRegistration))
    → get q.service_name d.services ≡ o
    → IsIndexed d
    → IsIndexed (deregister_found q d o).0
deregister_found-IsIndexed q d none e h = h
deregister_found-IsIndexed q d (some rs) e h =
    elim (Bool-cases (length (others q.agent_id.name rs) == length rs)) [
      | inl g ↦ rw g h
      | inr g ↦ rw g left
    ]
  where
    left : IsIndexed (leave q.agent_id.name q.service_name rs d)
    left a s =
        listed-leave q.agent_id.name q.service_name rs d a s
        ∙ ap (λ (b : Bool). b && not (q.agent_id.name =s= a && q.service_name =s= s)) (h a s)
        ∙ sym (provided-leave q.agent_id.name q.service_name rs d a s e)

deregister-IsIndexed : (q : Deregister) (d : Df) → IsIndexed d → IsIndexed (deregister q d).0
unfolding deregister
deregister-IsIndexed q d h = deregister_found-IsIndexed q d (get q.service_name d.services) refl h

-- The calls of the directory, each with the instants that it reads.
pub data Call : Type 0 where
  registering : ℕ → ℕ → Register → Call
  deregistering : Deregister → Call
  modifying : ℕ → ℕ → AgentId → ServiceDescription → Call
  searching : SearchRequest → Call
  subscribing : ℕ → AgentId → SearchFilter → Call
  unsubscribing : AgentId → Call

unfoldable pub perform : HashOrder → Call → Df → Df
perform h (registering now later q) d = (register now later q d).0
perform h (deregistering q) d = (deregister q d).0
perform h (modifying now later agent_id service) d = (modify now later agent_id service d).0
perform h (searching q) d = (search h q d).0
perform h (subscribing now subscriber wanted) d = (subscribe now subscriber wanted d).0
perform h (unsubscribing subscriber) d = (unsubscribe subscriber d).0

unfoldable pub performs : HashOrder → List Call → Df → Df
unfolding perform
performs h [] d = d
performs h (call ∷ calls) d = performs h calls (perform h call d)

unsubscribes-IsIndexed :
    (subscriber : AgentId) (d : Df) (o : Option DfSubscription)
    → IsIndexed d
    → IsIndexed (unsubscribe_found subscriber d o).0
unsubscribes-IsIndexed subscriber d none i = i
unsubscribes-IsIndexed subscriber d (some s) i = i

perform-IsIndexed :
    (h : HashOrder) (call : Call) (d : Df) → IsIndexed d → IsIndexed (perform h call d)
unfolding perform modify search
perform-IsIndexed h (registering now later q) d i = register-IsIndexed now later q d i
perform-IsIndexed h (deregistering q) d i = deregister-IsIndexed q d i
perform-IsIndexed h (modifying now later agent_id service) d i =
    let leaving : Deregister = record { agent_id = agent_id; service_name = service.name } in
    register-IsIndexed now later
      (record { agent_id = agent_id; service = service; lease_duration = none })
      (deregister leaving d).0 (deregister-IsIndexed leaving d i)
perform-IsIndexed h (searching q) d i = i
perform-IsIndexed h (subscribing now subscriber wanted) d i = i
perform-IsIndexed h (unsubscribing subscriber) d i =
    unsubscribes-IsIndexed subscriber d (get subscriber.name d.subscriptions) i

-- After any calls, a service is listed for an agent exactly when the agent is among those that are
-- registered for the service.
pub performs-IsIndexed :
    (h : HashOrder) (calls : List Call) (config : DfConfig) (agent service : String)
    → let d = performs h calls (new_df config) in
      is_listed d agent service ≡ is_provided d agent service
unfolding performs get
performs-IsIndexed h calls config agent service =
    go calls (new_df config) (λ (a s : String). refl) agent service
  where
    go : (calls : List Call) (d : Df) → IsIndexed d → IsIndexed (performs h calls d)
    go [] d i = i
    go (call ∷ calls) d i = go calls (perform h call d) (perform-IsIndexed h call d i)
