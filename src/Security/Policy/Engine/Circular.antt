-- ===== src/Security/Policy/Engine/Circular.antt =====
-- What `resolve_role_permissions` returns, and what its report of a circular inheritance means.
use mathlib.Core.List.{Memᴰ}
use fipa_wasm.Base.{
  ℕ, zero, suc, String, ◌≡◌, ◌≢◌, refl, subst, List, [], ◌∷◌, ◌++◌, Option, none, some, Bool, true,
  false, eq_iff, ◌⊎◌, inl, inr, arith, if◌then◌else◌, ◌↔◌,
}
use fipa_wasm.Base.Result.{Result, ok, err}
use fipa_wasm.Security.Permissions.{Permission, PermissionSet, merge}
use fipa_wasm.Security.Policy.{
  Role, SecurityPolicy, PolicyError, circular_inheritance, role_not_found, load_error,
  invalid_format, io_error, get_role,
}
use fipa_wasm.Security.Policy.Engine.{
  Resolution, visits, after_inherited, inherit, resolve_found, resolve_role_permissions, fuel_of,
}
use fipa_wasm.Security.Policy.Engine.Resolution.{Granted, IsAnswer, resolution-IsAnswer}
use fipa_wasm.Security.Policy.Engine.Walks.{
  Walk, Within, IsMet, IsMetTwice, IsRepeated, IsTraced, first-IsMet, first-IsRepeated,
  later-IsTraced,
}

visits-last :
    (name m : String) (visited : List String)
    → visits m (visited ++ name ∷ []) ≡ true
    → (visits m visited ≡ true) ⊎ (name ≡ m)
visits-last name m [] v = inr ((eq_iff name m).0 (ground (arith)))
visits-last name m (n ∷ visited) v = ground (arith, visits-last name m visited)

module _ (policy : SecurityPolicy) where
  abbrev TracesAll : (List String → String → Option Resolution) → Type 0
  TracesAll call =
      (visited : List String) (name : String)
      → IsTraced visited (Walk policy name) (call visited name)

  inherit-IsTraced :
      (call : List String → String → Option Resolution)
      → TracesAll call
      → (names visited : List String) (base : PermissionSet)
      → IsTraced visited (Within policy names) (inherit call names visited base)
  unfolding inherit
  inherit-IsTraced call traces [] visited base = (λ m v. inl v, tt)
  inherit-IsTraced call traces (name ∷ names) visited base =
      by (call visited name) (traces visited name) (inherit-IsTraced call traces names)
    where
      old :
          (m : String)
          → (visits m visited ≡ true) ⊎ IsMet (Walk policy name) m
          → (visits m visited ≡ true) ⊎ IsMet (Within policy (name ∷ names)) m
      old m (inl v) = inl v
      old m (inr t) = inr (first-IsMet policy name names m t)

      by :
          (o : Option Resolution)
          → IsTraced visited (Walk policy name) o
          → ((between : List String) (perms : PermissionSet)
              → IsTraced between (Within policy names) (inherit call names between perms))
          → IsTraced visited
              (Within policy (name ∷ names))
              (after_inherited (inherit call names) base o)
      by none t rest = tt
      by (some (later, err e)) (all, t) rest =
          (λ m v. old m (all m v), first-IsRepeated policy name names visited e t)
      by (some (later, ok ps)) (all, t) rest =
          later-IsTraced policy name names visited later _ all (rest later (merge base ps))

  -- The ways from a role are those from the names that it inherits from, behind the role itself.
  from_role :
      (name : String) (role : Role) (ps : List ℕ) (m : String)
      → get_role policy name ≡ some role
      → Within policy role.inherits ps m
      → (Walk policy name ps m) × (ps ≢ [])
  from_role name role [] m g w = absurd w
  from_role name role (i ∷ ps) m g w = ((role, g, w), λ e. cc (e))

  role-IsMet :
      (name : String) (role : Role) (m : String)
      → get_role policy name ≡ some role
      → IsMet (Within policy role.inherits) m
      → IsMet (Walk policy name) m
  role-IsMet name role m g (ps, w) = (ps, (from_role name role ps m g w).0)

  role-IsRepeated :
      (name : String) (role : Role) (visited : List String) (r : Result PolicyError PermissionSet)
      → get_role policy name ≡ some role
      → IsRepeated (visited ++ name ∷ []) (Within policy role.inherits) r
      → IsRepeated visited (Walk policy name) r
  role-IsRepeated name role visited (err (circular_inheritance m)) g (inr (ps, (qs, w, u, n))) =
      inr (ps, (qs, (from_role name role ps m g w).0, (from_role name role qs m g u).0, n))
  role-IsRepeated name role visited (err (circular_inheritance m)) g (inl (v, (ps, w))) =
      by (visits-last name m visited v)
    where
      by :
          (visits m visited ≡ true) ⊎ (name ≡ m)
          → ((visits m visited ≡ true) × IsMet (Walk policy name) m)
            ⊎ IsMetTwice (Walk policy name) m
      by (inl before) = inl (before, role-IsMet name role m g (ps, w))
      by (inr same) = let l = from_role name role ps m g w in inr (ps, ([], l.0, same, l.1))
  role-IsRepeated name role visited (err (role_not_found m)) g t = role-IsMet name role m g t
  role-IsRepeated name role visited r g t = tt

  found-IsTraced :
      (call : List String → String → Option Resolution) (visited : List String) (name : String)
      (o : Option Role)
      → get_role policy name ≡ o
      → TracesAll call
      → IsTraced visited (Walk policy name) (resolve_found call (visited ++ name ∷ []) name o)
  unfolding resolve_found
  found-IsTraced call visited name none g traces =
      (λ m v. from m (visits-last name m visited v), ([], refl))
    where
      from :
          (m : String)
          → (visits m visited ≡ true) ⊎ (name ≡ m)
          → (visits m visited ≡ true) ⊎ IsMet (Walk policy name) m
      from m (inl v) = inl v
      from m (inr same) = inr ([], same)
  found-IsTraced call visited name (some role) g traces =
      by (inherit call role.inherits (visited ++ name ∷ []) role.permissions)
        (inherit-IsTraced call traces role.inherits (visited ++ name ∷ []) role.permissions)
    where
      last :
          (m : String)
          → (visits m visited ≡ true) ⊎ (name ≡ m)
          → (visits m visited ≡ true) ⊎ IsMet (Walk policy name) m
      last m (inl v) = inl v
      last m (inr same) = inr ([], same)

      from :
          (m : String)
          → (visits m (visited ++ name ∷ []) ≡ true) ⊎ IsMet (Within policy role.inherits) m
          → (visits m visited ≡ true) ⊎ IsMet (Walk policy name) m
      from m (inl v) = last m (visits-last name m visited v)
      from m (inr t) = inr (role-IsMet name role m g t)

      by :
          (o : Option Resolution)
          → IsTraced (visited ++ name ∷ []) (Within policy role.inherits) o
          → IsTraced visited (Walk policy name) o
      by none t = tt
      by (some (later, r)) (all, t) =
          (λ m v. from m (all m v), role-IsRepeated name role visited r g t)

  resolution-IsTraced : (fuel : ℕ) → TracesAll (resolve_role_permissions fuel policy)
  unfolding resolve_role_permissions
  resolution-IsTraced zero visited name = tt
  resolution-IsTraced (suc fuel) visited name = by _ (visits name visited) refl (
      found-IsTraced (resolve_role_permissions fuel policy) visited name (get_role policy name) refl
        (resolution-IsTraced fuel))
    where
      by :
          (o : Option Resolution) (seen : Bool)
          → visits name visited ≡ seen
          → IsTraced visited (Walk policy name) o
          → IsTraced visited
              (Walk policy name)
              (if seen then some (visited, err (circular_inheritance name)) else o)
      by o true v t = (λ m w. inl w, inl (v, ([], refl)))
      by o false v t = t

-- An error names a role that is not there and to which a way of inheritance leads, or one to which two different ways of inheritance lead.
abbrev pub IsFault : SecurityPolicy → String → PolicyError → Type 0
IsFault policy start (role_not_found name) =
    (get_role policy name ≡ none) × IsMet (Walk policy start) name
IsFault policy start (circular_inheritance name) = IsMetTwice (Walk policy start) name
IsFault policy start (load_error s) = ⊥
IsFault policy start (invalid_format s) = ⊥
IsFault policy start (io_error s) = ⊥

abbrev pub IsRight : SecurityPolicy → String → Result PolicyError PermissionSet → Type 0
IsRight policy name (err e) = IsFault policy name e
IsRight policy name (ok perms) = (p : Permission) → Memᴰ p perms.permissions ↔ Granted policy name p

both-IsRight :
    (policy : SecurityPolicy) (name : String) (r : Result PolicyError PermissionSet)
    → IsAnswer policy name r
    → IsRepeated [] (Walk policy name) r
    → IsRight policy name r
both-IsRight policy name (ok perms) a t = a
both-IsRight policy name (err (role_not_found n)) a t = (a, t)
both-IsRight policy name (err (circular_inheritance n)) a (inr t) = t
both-IsRight policy name (err (circular_inheritance n)) a (inl (v, t)) = absurd (cc (v))
both-IsRight policy name (err (load_error s)) a t = a
both-IsRight policy name (err (invalid_format s)) a t = a
both-IsRight policy name (err (io_error s)) a t = a

-- With as many calls inside one another as there are roles, and one more, the resolution of a role
-- returns. What it returns holds a permission exactly when the role has it or inherits it, at any
-- depth; or it is an error: a name that no role has, though it is the role asked for or one that this
-- inherits from, or a circular inheritance that names a role to which two different ways of inheritance
-- lead from the first.
pub resolve_role_permissions-returns :
    (policy : SecurityPolicy) (name : String)
    → (visited : List String) × (r : Result PolicyError PermissionSet) × (resolve_role_permissions
          (fuel_of policy)
          policy
          []
          name
        ≡ some (visited, r))
      × IsRight policy name r
resolve_role_permissions-returns policy name =
    let c = resolution-IsAnswer policy name in
    let t =
      subst (IsTraced [] (Walk policy name)) c.2
        (resolution-IsTraced policy (fuel_of policy) [] name) in
    (c.0, c.1, c.2, both-IsRight policy name c.1 c.3 t.1)
