-- ===== src/Security/Policy/Engine/Walks.antt =====
-- The ways by which a role inherits from another, and those that the resolution has taken.
use fipa_wasm.Base.{
  ℕ, zero, suc, String, ◌≡◌, ◌≢◌, refl, List, [], ◌∷◌, Option, none, some, true, ◌⊎◌, inl, inr,
}
use fipa_wasm.Base.Result.{Result, err}
use fipa_wasm.Security.Permissions.{PermissionSet}
use fipa_wasm.Security.Policy.{
  Role, SecurityPolicy, PolicyError, circular_inheritance, role_not_found, get_role,
}
use fipa_wasm.Security.Policy.Engine.{Resolution, visits}

abbrev pub get_elem? : List String → ℕ → Option String
get_elem? [] n = none
get_elem? (x ∷ xs) zero = some x
get_elem? (x ∷ xs) (suc n) = get_elem? xs n

-- The positions lead from the first role to the second: each is a place in the list of what the role
-- reached so far inherits from.
abbrev pub Walk : SecurityPolicy → String → List ℕ → String → Type 0
Walk policy name [] last = name ≡ last
Walk policy name (i ∷ ps) last =
    (role : Role) × (get_role policy name ≡ some role)
    × ((parent : String) × (get_elem? role.inherits i ≡ some parent) × Walk policy parent ps last)

-- The same from a list of names.
abbrev pub Within : SecurityPolicy → List String → List ℕ → String → Type 0
Within policy names [] last = ⊥
Within policy names (i ∷ ps) last =
    (parent : String) × (get_elem? names i ≡ some parent) × Walk policy parent ps last

-- Some way leads to the name, or two different ways do.
abbrev pub IsMet : (List ℕ → String → Type 0) → String → Type 0
IsMet Leads m = (ps : List ℕ) × Leads ps m

abbrev pub IsMetTwice : (List ℕ → String → Type 0) → String → Type 0
IsMetTwice Leads m = (ps : List ℕ) × ((qs : List ℕ) × (Leads ps m) × (Leads qs m) × (ps ≢ qs))

abbrev pub IsRepeated :
    List String → (List ℕ → String → Type 0) → Result PolicyError PermissionSet → Type 0
IsRepeated visited Leads (err (circular_inheritance m)) =
    ((visits m visited ≡ true) × IsMet Leads m) ⊎ IsMetTwice Leads m
IsRepeated visited Leads (err (role_not_found m)) = IsMet Leads m
IsRepeated visited Leads r = Unit {0}

abbrev pub IsTraced : List String → (List ℕ → String → Type 0) → Option Resolution → Type 0
IsTraced visited Leads none = Unit {0}
IsTraced visited Leads (some (later, r)) =
    ((m : String) → visits m later ≡ true → (visits m visited ≡ true) ⊎ IsMet Leads m)
    × IsRepeated visited Leads r

module _ (policy : SecurityPolicy) where
  -- What the first name of a list leads to, and what the others do.
  pub first-IsMet :
      (name : String) (names : List String) (m : String)
      → IsMet (Walk policy name) m
      → IsMet (Within policy (name ∷ names)) m
  first-IsMet name names m (ps, w) = (0 ∷ ps, (name, refl, w))

  first-IsMetTwice :
      (name : String) (names : List String) (m : String)
      → IsMetTwice (Walk policy name) m
      → IsMetTwice (Within policy (name ∷ names)) m
  first-IsMetTwice name names m (ps, (qs, w, u, n)) =
      (0 ∷ ps, (0 ∷ qs, (name, refl, w), (name, refl, u), λ e. n (cc (e))))

  later-Within :
      (name : String) (names : List String) (ps : List ℕ) (m : String)
      → Within policy names ps m
      → (qs : List ℕ) × (Within policy (name ∷ names) qs m) × ((rs : List ℕ) → qs ≢ 0 ∷ rs)
  later-Within name names [] m w = absurd w
  later-Within name names (i ∷ ps) m w = (suc i ∷ ps, w, λ rs e. cc (e))

  later-IsMet :
      (name : String) (names : List String) (m : String)
      → IsMet (Within policy names) m
      → IsMet (Within policy (name ∷ names)) m
  later-IsMet name names m (ps, w) = let l = later-Within name names ps m w in (l.0, l.1)

  later-IsMetTwice :
      (name : String) (names : List String) (m : String)
      → IsMetTwice (Within policy names) m
      → IsMetTwice (Within policy (name ∷ names)) m
  later-IsMetTwice name names m ([], (qs, w, u, n)) = absurd w
  later-IsMetTwice name names m (i ∷ ps, ([], w, u, n)) = absurd u
  later-IsMetTwice name names m (i ∷ ps, (j ∷ qs, w, u, n)) =
      (suc i ∷ ps, (suc j ∷ qs, w, u, λ e. n (cc (e))))

  both-IsMetTwice :
      (name : String) (names : List String) (m : String)
      → IsMet (Walk policy name) m
      → IsMet (Within policy names) m
      → IsMetTwice (Within policy (name ∷ names)) m
  both-IsMetTwice name names m (ps, w) (qs, u) =
      let l = later-Within name names qs m u in (l.0, (0 ∷ ps, l.1, (name, refl, w), l.2 ps))

  pub first-IsRepeated :
      (name : String) (names visited : List String) (e : PolicyError)
      → IsRepeated visited (Walk policy name) (err e)
      → IsRepeated visited (Within policy (name ∷ names)) (err e)
  first-IsRepeated name names visited (circular_inheritance m) (inl (v, t)) =
      inl (v, first-IsMet name names m t)
  first-IsRepeated name names visited (circular_inheritance m) (inr t) =
      inr (first-IsMetTwice name names m t)
  first-IsRepeated name names visited (role_not_found m) t = first-IsMet name names m t
  first-IsRepeated name names visited e t = tt

  later-IsRepeated :
      (name : String) (names visited between : List String) (r : Result PolicyError PermissionSet)
      → ((m : String)
          → visits m between ≡ true
          → (visits m visited ≡ true) ⊎ IsMet (Walk policy name) m)
      → IsRepeated between (Within policy names) r
      → IsRepeated visited (Within policy (name ∷ names)) r
  later-IsRepeated name names visited between (err (circular_inheritance m)) before (inr t) =
      inr (later-IsMetTwice name names m t)
  later-IsRepeated name names visited between (err (circular_inheritance m)) before (inl (v, t)) =
      by (before m v)
    where
      by :
          (visits m visited ≡ true) ⊎ IsMet (Walk policy name) m
          → ((visits m visited ≡ true) × IsMet (Within policy (name ∷ names)) m)
            ⊎ IsMetTwice (Within policy (name ∷ names)) m
      by (inl old) = inl (old, later-IsMet name names m t)
      by (inr new) = inr (both-IsMetTwice name names m new t)
  later-IsRepeated name names visited between (err (role_not_found m)) before t =
      later-IsMet name names m t
  later-IsRepeated name names visited between r before t = tt

  pub later-IsTraced :
      (name : String) (names visited between : List String) (o : Option Resolution)
      → ((m : String)
          → visits m between ≡ true
          → (visits m visited ≡ true) ⊎ IsMet (Walk policy name) m)
      → IsTraced between (Within policy names) o
      → IsTraced visited (Within policy (name ∷ names)) o
  later-IsTraced name names visited between none before t = tt
  later-IsTraced name names visited between (some (later, r)) before (all, t) =
      (λ m v. from m (all m v), later-IsRepeated name names visited between r before t)
    where
      first :
          (m : String)
          → (visits m visited ≡ true) ⊎ IsMet (Walk policy name) m
          → (visits m visited ≡ true) ⊎ IsMet (Within policy (name ∷ names)) m
      first m (inl old) = inl old
      first m (inr new) = inr (first-IsMet name names m new)

      from :
          (m : String)
          → (visits m between ≡ true) ⊎ IsMet (Within policy names) m
          → (visits m visited ≡ true) ⊎ IsMet (Within policy (name ∷ names)) m
      from m (inl v) = first m (before m v)
      from m (inr new) = inr (later-IsMet name names m new)
