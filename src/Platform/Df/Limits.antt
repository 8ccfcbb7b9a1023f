-- ===== src/Platform/Df/Limits.antt =====
-- The limits on services.
use fipa_wasm.Base.{
  ℕ, suc, ◌+◌, ◌≤◌, ◌<◌, String, List, [], ◌∷◌, ◌++◌, length, ◌≡◌, refl, sym, ap, ◌∙◌, Option, none,
  some, Bool, true, false, ◌&&◌, ltb, leb, ◌=s=◌, ◌==◌, arith, length-append, if◌then◌else◌, inl,
  inr, Bool-cases,
}
use fipa_wasm.Base.Dict.{Dict, HashOrder, get, insert, remove}
use fipa_wasm.Acl.{AgentId}
use fipa_wasm.Platform.Df.{
  Df, DfConfig, DfSubscription, ServiceRegistration, Register, Deregister, list_of, total_count,
  has_name, insert_name, remove_name, others, put_or_remove, drop_name, leave, enter, registration,
  register, deregister, deregister_found, modify, new_df,
}
use fipa_wasm.Platform.Df.Index.{list_of-insert, list_of-put_or_remove, others-le}
use fipa_wasm.Platform.Df.Search.{search, unsubscribe_found}
use fipa_wasm.Platform.Df.Removal.{
  Call, registering, deregistering, modifying, searching, subscribing, unsubscribing, perform,
  performs,
}

-- `max_total_services` of zero is no limit.
pub record IsWithin (config : DfConfig) (d : Df) : Type 0 where
  pub configured : d.config ≡ config
  pub total : 0 < config.max_total_services → total_count d.services ≤ config.max_total_services
  pub listed :
      (agent : String)
      → length (list_of (get agent d.agent_services)) ≤ config.max_services_per_agent

total_count-insert :
    (name : String) (rs : List ServiceRegistration) (m : Dict (List ServiceRegistration))
    → total_count (insert name rs m) + length (list_of (get name m)) ≡ total_count m + length rs
unfolding insert get
total_count-insert name rs [] = omega arith
total_count-insert name rs ((n, qs) ∷ m) = ground (arith, total_count-insert name rs m)

total_count-remove :
    (name : String) (m : Dict (List ServiceRegistration))
    → total_count (remove name m) ≤ total_count m
unfolding remove
total_count-remove name [] = omega arith
total_count-remove name ((n, qs) ∷ m) = ground (arith, total_count-remove name m)

-- Fewer services under a name are fewer in all.
total_count-put_or_remove :
    (name : String) (rs : List ServiceRegistration) (m : Dict (List ServiceRegistration))
    → length rs ≤ length (list_of (get name m))
    → total_count (put_or_remove name rs m) ≤ total_count m
total_count-put_or_remove name [] m h = total_count-remove name m
total_count-put_or_remove name (r ∷ rs) m h = omega (arith, total_count-insert name (r ∷ rs) m, h)

insert_name-length :
    (name : String) (names : List String) → length (insert_name name names) ≤ suc (length names)
insert_name-length name names = elim (Bool-cases (has_name name names)) [
  | inl e ↦ rw e (omega arith)
  | inr e ↦ rw e (omega (arith, length-append names (name ∷ [])))
]

remove_name-length :
    (name : String) (names : List String) → length (remove_name name names) ≤ length names
remove_name-length name [] = omega arith
remove_name-length name (n ∷ names) = ground (arith, remove_name-length name names)

module _ (config : DfConfig) where
  enter-IsWithin :
      (now later : ℕ) (q : Register) (d : Df)
      → IsWithin config d
      → leb d.config.max_services_per_agent
          (length (list_of (get q.agent_id.name d.agent_services)))
        ≡ false
      → (ltb 0 d.config.max_total_services
          && leb d.config.max_total_services (total_count d.services))
        ≡ false
      → IsWithin config (enter now later q d)
  enter-IsWithin now later q d w e g = record {
    configured = w.configured;
    total = λ (p : 0 < config.max_total_services). total_room p (
        ap
          (λ (c : DfConfig).
            ltb 0 c.max_total_services && leb c.max_total_services (total_count d.services))
          (sym w.configured)
        ∙ g);
    listed = λ (agent : String).
        rw
          (list_of-insert q.agent_id.name agent
            (insert_name q.service.name (list_of (get q.agent_id.name d.agent_services)))
            d.agent_services)
          (listed_room agent (q.agent_id.name =s= agent) (
            ap
              (λ (c : DfConfig).
                leb c.max_services_per_agent
                  (length (list_of (get q.agent_id.name d.agent_services))))
              (sym w.configured)
            ∙ e));
  }
    where
      total_room :
          0 < config.max_total_services
          → (ltb 0 config.max_total_services
              && leb config.max_total_services (total_count d.services))
            ≡ false
          → total_count (enter now later q d).services ≤ config.max_total_services
      total_room p g =
          let before = list_of (get q.service.name d.services) in
          let room = below p g in
          omega (
            arith,
            room,
            total_count-insert q.service.name (before ++ registration now later q ∷ []) d.services,
            length-append before (registration now later q ∷ []),
          )
        where
          below : {m n : ℕ} → 0 < m → (ltb 0 m && leb m n) ≡ false → n < m
          below p g = ground arith

      listed_room :
          (agent : String) (same : Bool)
          → leb config.max_services_per_agent
              (length (list_of (get q.agent_id.name d.agent_services)))
            ≡ false
          → length (
              if same
              then insert_name q.service.name (list_of (get q.agent_id.name d.agent_services))
              else list_of (get agent d.agent_services))
            ≤ config.max_services_per_agent
      listed_room agent true e =
          let names = list_of (get q.agent_id.name d.agent_services) in
          let room = above e in omega (arith, room, insert_name-length q.service.name names)
        where
          above : {m n : ℕ} → leb m n ≡ false → n < m
          above e = ground arith
      listed_room agent false e = w.listed agent

  register-IsWithin :
      (now later : ℕ) (q : Register) (d : Df)
      → IsWithin config d
      → IsWithin config (register now later q d).0
  unfolding register
  register-IsWithin now later q d w =
      elim (Bool-cases (
        leb d.config.max_services_per_agent
          (length (list_of (get q.agent_id.name d.agent_services))))) [
            | inl e ↦ rw e w
            | inr e ↦
                elim (Bool-cases (
                  ltb 0 d.config.max_total_services
                  && leb d.config.max_total_services (total_count d.services))) [
                    | inl g ↦ rw (e, g) w
                    | inr g ↦
                        let entered = enter-IsWithin now later q d w e g in
                        rw (e, g)
                          (record {
                            configured = entered.configured;
                            total = entered.total;
                            listed = entered.listed;
                          })
                  ]
          ]

  leave-IsWithin :
      (agent service : String) (rs : List ServiceRegistration) (d : Df)
      → get service d.services ≡ some rs
      → IsWithin config d
      → IsWithin config (leave agent service rs d)
  leave-IsWithin agent service rs d e w = record {
    configured = w.configured;
    total = λ (p : 0 < config.max_total_services).
        omega
          (arith, w.total p, total_count-put_or_remove service (others agent rs) d.services fewer);
    listed = λ (a : String). by_entry a (get agent d.agent_services) refl;
  }
    where
      fewer : length (others agent rs) ≤ length (list_of (get service d.services))
      fewer = rw e (others-le agent rs)

      by_name :
          (a : String) (names : List String)
          → get agent d.agent_services ≡ some names
          → (same : Bool)
          → length (if same then remove_name service names else list_of (get a d.agent_services))
            ≤ config.max_services_per_agent
      by_name a names f true = omega (
        arith,
        remove_name-length service names,
        w.listed agent,
        ap (λ (o : Option (List String)). length (list_of o)) f,
      )
      by_name a names f false = w.listed a

      by_entry :
          (a : String) (o : Option (List String))
          → get agent d.agent_services ≡ o
          → length (list_of (get a (drop_name agent service o d.agent_services)))
            ≤ config.max_services_per_agent
      by_entry a none f = w.listed a
      by_entry a (some names) f =
          rw (list_of-put_or_remove agent a (remove_name service names) d.agent_services)
            (by_name a names f (agent =s= a))

  deregister_found-IsWithin :
      (q : Deregister) (d : Df) (o : Option (List ServiceRegistration))
      → get q.service_name d.services ≡ o
      → IsWithin config d
      → IsWithin config (deregister_found q d o).0
  deregister_found-IsWithin q d none e w = w
  deregister_found-IsWithin q d (some rs) e w =
      elim (Bool-cases (length (others q.agent_id.name rs) == length rs)) [
        | inl g ↦ rw g w
        | inr g ↦
            let left = leave-IsWithin q.agent_id.name q.service_name rs d e w in
            rw g (record { configured = left.configured; total = left.total; listed = left.listed })
      ]

  unsubscribes-IsWithin :
      (subscriber : AgentId) (d : Df) (o : Option DfSubscription)
      → IsWithin config d
      → IsWithin config (unsubscribe_found subscriber d o).0
  unsubscribes-IsWithin subscriber d none w = w
  unsubscribes-IsWithin subscriber d (some s) w = record {
    configured = w.configured;
    total = w.total;
    listed = w.listed;
  }

  perform-IsWithin :
      (h : HashOrder) (call : Call) (d : Df)
      → IsWithin config d
      → IsWithin config (perform h call d)
  unfolding perform deregister modify search
  perform-IsWithin h (registering now later q) d w = register-IsWithin now later q d w
  perform-IsWithin h (deregistering q) d w =
      deregister_found-IsWithin q d (get q.service_name d.services) refl w
  perform-IsWithin h (modifying now later agent_id service) d w =
      let leaving : Deregister = record { agent_id = agent_id; service_name = service.name } in
      register-IsWithin now later
        (record { agent_id = agent_id; service = service; lease_duration = none })
        (deregister leaving d).0
        (deregister_found-IsWithin leaving d (get service.name d.services) refl w)
  perform-IsWithin h (searching q) d w = record {
    configured = w.configured;
    total = w.total;
    listed = w.listed;
  }
  perform-IsWithin h (subscribing now subscriber wanted) d w = record {
    configured = w.configured;
    total = w.total;
    listed = w.listed;
  }
  perform-IsWithin h (unsubscribing subscriber) d w =
      unsubscribes-IsWithin subscriber d (get subscriber.name d.subscriptions) w

-- After any calls, there are no more registrations than the limit on services, where it is not zero,
-- and no more service names are listed for an agent than the limit for one.
pub performs-limits :
    (h : HashOrder) (calls : List Call) (config : DfConfig) (agent : String)
    → let d = performs h calls (new_df config) in
      (0 < config.max_total_services → total_count d.services ≤ config.max_total_services)
      × (length (list_of (get agent d.agent_services)) ≤ config.max_services_per_agent)
unfolding performs get
performs-limits h calls config agent =
    let w = go calls (new_df config) start in (w.total, w.listed agent)
  where
    start : IsWithin config (new_df config)
    start = record {
      configured = refl;
      total = λ (p : 0 < config.max_total_services). omega arith;
      listed = λ (a : String). omega arith;
    }

    go : (calls : List Call) (d : Df) → IsWithin config d → IsWithin config (performs h calls d)
    go [] d w = w
    go (call ∷ calls) d w = go calls (perform h call d) (perform-IsWithin config h call d w)
