-- ===== src/Platform/Df/Index.antt =====
-- The services and the index of them by agent.
use fipa_wasm.Base.{
  ℕ, suc, ◌≤◌, String, List, [], ◌∷◌, ◌++◌, length, any, any-append, ◌≡◌, refl, sym, ap, ◌∙◌, Bool,
  true, false, not, ◌&&◌, ◌||◌, ltb, leb, ◌=s=◌, ◌==◌, eq_iff, arith, if◌then◌else◌, inl, inr,
  Bool-cases,
}
use fipa_wasm.Base.Dict.{Dict, get, insert, get-insert, get-remove}
use fipa_wasm.Platform.Df.{
  Df, ServiceRegistration, Register, list_of, total_count, has_name, insert_name, remove_name,
  others, put_or_remove, enter, registration, register,
}

-- An agent is among those that provide a service, and the service is listed for the agent.
abbrev pub owns : String → List ServiceRegistration → Bool
owns agent rs = any (λ (r : ServiceRegistration). r.owner.name =s= agent) rs

abbrev pub is_provided : Df → String → String → Bool
is_provided d agent service = owns agent (list_of (get service d.services))

abbrev pub is_listed : Df → String → String → Bool
is_listed d agent service = has_name service (list_of (get agent d.agent_services))

abbrev pub IsIndexed : Df → Type 0
IsIndexed d = (agent service : String) → is_listed d agent service ≡ is_provided d agent service

pub list_of-insert {ℓ} :
    {A : Type ℓ} (key k : String) (xs : List A) (m : Dict (List A))
    → list_of (get k (insert key xs m)) ≡ (if key =s= k then xs else list_of (get k m))
list_of-insert key k xs m = ap list_of (get-insert key k xs m) ∙ (ground arith)

pub list_of-put_or_remove {ℓ} :
    {A : Type ℓ} (key k : String) (xs : List A) (m : Dict (List A))
    → list_of (get k (put_or_remove key xs m)) ≡ (if key =s= k then xs else list_of (get k m))
list_of-put_or_remove key k [] m = ap list_of (get-remove key k m) ∙ (ground arith)
list_of-put_or_remove key k (x ∷ xs) m = list_of-insert key k (x ∷ xs) m

has_name-insert_name :
    (name n : String) (names : List String)
    → has_name n (insert_name name names) ≡ has_name n names || name =s= n
has_name-insert_name name n names = elim (Bool-cases (has_name name names)) [
  | inl e ↦ rw e (already (name =s= n) refl e)
  | inr e ↦ rw e (any-append (λ (m : String). m =s= n) names (name ∷ []) ∙ last)
]
  where
    last : has_name n names || (name =s= n || false) ≡ has_name n names || name =s= n
    last = ground arith

    already :
        (same : Bool)
        → (name =s= n) ≡ same
        → has_name name names ≡ true
        → has_name n names ≡ has_name n names || same
    already true s e =
        rw (sym (ap (λ (m : String). has_name m names) ((eq_iff name n).0 s)) ∙ e) refl
    already false s e = ground arith

pub has_name-remove_name :
    (name n : String) (names : List String)
    → has_name n (remove_name name names) ≡ has_name n names && not (name =s= n)
has_name-remove_name name n [] = refl
has_name-remove_name name n (m ∷ names) =
    ground (arith, has_name-remove_name name n names, eq_iff m name, eq_iff m n, eq_iff name n)

pub owns-others :
    (agent a : String) (rs : List ServiceRegistration)
    → owns a (others agent rs) ≡ owns a rs && not (agent =s= a)
owns-others agent a [] = refl
owns-others agent a (r ∷ rs) = ground (
  arith,
  owns-others agent a rs,
  eq_iff r.owner.name agent,
  eq_iff r.owner.name a,
  eq_iff agent a,
)

pub others-le :
    (agent : String) (rs : List ServiceRegistration) → length (others agent rs) ≤ length rs
others-le agent [] = omega arith
others-le agent (r ∷ rs) = ground (arith, others-le agent rs)

others-eq :
    (agent : String) (rs : List ServiceRegistration)
    → owns agent rs ≡ false
    → length (others agent rs) ≡ length rs
others-eq agent [] h = refl
others-eq agent (r ∷ rs) h = ground (arith, others-eq agent rs)

others-lt :
    (agent : String) (rs : List ServiceRegistration)
    → owns agent rs ≡ true
    → suc (length (others agent rs)) ≤ length rs
others-lt agent [] h = cc
others-lt agent (r ∷ rs) h = ground (arith, others-lt agent rs, others-le agent rs)

-- Nothing is filtered out exactly when the agent owns nothing there.
pub others-length :
    (agent : String) (rs : List ServiceRegistration)
    → (length (others agent rs) == length rs) ≡ not (owns agent rs)
others-length agent rs = elim (Bool-cases (owns agent rs)) [
  | inl e ↦ rw e (differ (others-lt agent rs e))
  | inr e ↦ rw e (same (others-eq agent rs e))
]
  where
    differ : {m n : ℕ} → suc m ≤ n → (m == n) ≡ false
    differ h = ground arith

    same : {m n : ℕ} → m ≡ n → (m == n) ≡ true
    same h = ground arith

-- What an agent and a service have after an entry.
listed-enter :
    (now later : ℕ) (q : Register) (d : Df) (agent service : String)
    → is_listed (enter now later q d) agent service
      ≡ is_listed d agent service || ((q.agent_id.name =s= agent) && (q.service.name =s= service))
listed-enter now later q d agent service =
    ap (has_name service) (list_of-insert q.agent_id.name agent _ d.agent_services)
    ∙ by_name (q.agent_id.name =s= agent) refl
  where
    by_name :
        (same : Bool)
        → (q.agent_id.name =s= agent) ≡ same
        → has_name service (
            if same
            then insert_name q.service.name (list_of (get q.agent_id.name d.agent_services))
            else list_of (get agent d.agent_services))
          ≡ is_listed d agent service || (same && (q.service.name =s= service))
    by_name true s =
        has_name-insert_name q.service.name service (list_of (get q.agent_id.name d.agent_services))
        ∙ ap
            (λ (a : String).
              has_name service (list_of (get a d.agent_services)) || q.service.name =s= service)
            ((eq_iff q.agent_id.name agent).0 s)
    by_name false s = ground arith

provided-enter :
    (now later : ℕ) (q : Register) (d : Df) (agent service : String)
    → is_provided (enter now later q d) agent service
      ≡ is_provided d agent service || ((q.agent_id.name =s= agent) && (q.service.name =s= service))
provided-enter now later q d agent service =
    ap (owns agent) (list_of-insert q.service.name service _ d.services)
    ∙ by_name (q.service.name =s= service) refl
  where
    by_name :
        (same : Bool)
        → (q.service.name =s= service) ≡ same
        → owns agent (
            if same
            then list_of (get q.service.name d.services) ++ registration now later q ∷ []
            else list_of (get service d.services))
          ≡ is_provided d agent service || ((q.agent_id.name =s= agent) && same)
    by_name true s =
        any-append (λ (r : ServiceRegistration). r.owner.name =s= agent)
          (list_of (get q.service.name d.services)) (registration now later q ∷ [])
        ∙ ap
            (λ (n : String).
              owns agent (list_of (get n d.services)) || (q.agent_id.name =s= agent || false))
            ((eq_iff q.service.name service).0 s)
        ∙ (ground arith)
    by_name false s = ground arith

pub register-IsIndexed :
    (now later : ℕ) (q : Register) (d : Df) → IsIndexed d → IsIndexed (register now later q d).0
unfolding register
register-IsIndexed now later q d h =
    elim (Bool-cases (
      leb d.config.max_services_per_agent
        (length (list_of (get q.agent_id.name d.agent_services))))) [
          | inl e ↦ rw e h
          | inr e ↦
              elim (Bool-cases (
                ltb 0 d.config.max_total_services
                && leb d.config.max_total_services (total_count d.services))) [
                  | inl g ↦ rw (e, g) h
                  | inr g ↦ rw (e, g) entered
                ]
        ]
  where
    entered : IsIndexed (enter now later q d)
    entered agent service =
        listed-enter now later q d agent service
        ∙ ap (λ (b : Bool). b || ((q.agent_id.name =s= agent) && (q.service.name =s= service)))
            (h agent service)
        ∙ sym (provided-enter now later q d agent service)
