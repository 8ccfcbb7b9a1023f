-- ===== src/Security/Policy/Engine/Unvisited.antt =====
-- The roles that `resolve_role_permissions` has not visited.

use fipa_wasm.Base.{
  ℕ, suc, ◌≤◌, ◌<◌, String, ◌≡◌, sym, ap, ◌∙◌, List, [], ◌∷◌, ◌++◌, some, false, ◌||◌, ◌=s=◌, inl,
  inr, eq_iff, arith, any-append, Bool-cases, if◌then◌else◌,
}
use fipa_wasm.Base.Dict.{Dict, get}
use fipa_wasm.Security.Policy.{Role}
use fipa_wasm.Security.Policy.Engine.{visits}

-- How many roles have names that were not visited.
abbrev pub unvisited : Dict Role → List String → ℕ
unvisited [] visited = 0
unvisited ((name, role) ∷ roles) visited =
    if visits name visited then unvisited roles visited else suc (unvisited roles visited)

visits-last :
    (name v : String) (visited : List String)
    → visits name (visited ++ v ∷ []) ≡ visits name visited || v =s= name
visits-last name v visited =
    ground (arith, any-append (λ (w : String). w =s= name) visited (v ∷ []))

pub unvisited-last :
    (roles : Dict Role) (v : String) (visited : List String)
    → unvisited roles (visited ++ v ∷ []) ≤ unvisited roles visited
unvisited-last [] v visited = omega arith
unvisited-last ((name, role) ∷ roles) v visited =
    ground (arith, unvisited-last roles v visited, visits-last name v visited)

-- A role that is visited for the first time is one fewer.
pub unvisited-first :
    (roles : Dict Role) (v : String) (role : Role) (visited : List String)
    → get v roles ≡ some role
    → visits v visited ≡ false
    → unvisited roles (visited ++ v ∷ []) < unvisited roles visited
unfolding get
unvisited-first [] v role visited h n = cc
unvisited-first ((name, r) ∷ roles) v role visited h n = elim (Bool-cases (name =s= v)) [
  | inl e ↦
      let same = (eq_iff name v).0 e in
      let unseen = ap (λ (w : String). visits w visited) same ∙ n in
      let found = (eq_iff v name).1 (sym same) in
      ground (arith, visits-last name v visited, unvisited-last roles v visited, unseen, found)
  | inr e ↦
      let further = unvisited-first roles v role visited (rest e h) n in
      let other = different name v e in ground (arith, visits-last name v visited, further, other)
]
  where
    rest : name =s= v ≡ false → get v ((name, r) ∷ roles) ≡ some role → get v roles ≡ some role
    rest e h = ground arith

    different : (s t : String) → s =s= t ≡ false → t =s= s ≡ false
    different s t e = ground (arith, eq_iff s t, eq_iff t s)
