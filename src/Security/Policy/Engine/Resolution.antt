-- ===== src/Security/Policy/Engine/Resolution.antt =====
-- What `resolve_role_permissions` returns, and that it does.
use mathlib.Core.List.{Memᴰ}
use mathlib.Core.List.Memᴰ
use fipa_wasm.Base.{
  ℕ, zero, suc, ◌≤◌, ◌<◌, String, ◌≡◌, refl, ap, ◌∙◌, subst, List, [], ◌∷◌, ◌++◌, Option, none,
  some, false, ◌↔◌, ◌⊎◌, inl, inr, arith, length, Bool-cases,
}
use fipa_wasm.Base.Result.{Result, ok, err}
use fipa_wasm.Base.Dict.{Dict}
use fipa_wasm.Security.Permissions.{Permission, PermissionSet, merge}
use fipa_wasm.Security.Policy.{
  Role, SecurityPolicy, PolicyError, circular_inheritance, role_not_found, load_error,
  invalid_format, io_error, get_role,
}
use fipa_wasm.Security.Policy.Engine.{
  Resolution, visits, after_inherited, inherit, resolve_found, resolve_role_permissions, fuel_of,
}
use fipa_wasm.Security.Policy.Engine.Unvisited.{unvisited, unvisited-last, unvisited-first}

-- A permission of a role, or of one that it inherits from at any depth.
pub data Granted (policy : SecurityPolicy) : String → Permission → Type 0 where
  own :
      {name : String} {p : Permission} (role : Role)
      → get_role policy name ≡ some role
      → Memᴰ p role.permissions.permissions
      → Granted policy name p
  inherited :
      {name : String} {p : Permission} (role : Role) (parent : String)
      → get_role policy name ≡ some role
      → Memᴰ parent role.inherits
      → Granted policy parent p
      → Granted policy name p

-- An error is a name that no role has, or one that the resolution met before.
abbrev pub IsKnown : SecurityPolicy → PolicyError → Type 0
IsKnown policy (role_not_found name) = get_role policy name ≡ none
IsKnown policy (circular_inheritance name) = Unit
IsKnown policy (load_error s) = ⊥
IsKnown policy (invalid_format s) = ⊥
IsKnown policy (io_error s) = ⊥

abbrev pub IsAnswer : SecurityPolicy → String → Result PolicyError PermissionSet → Type 0
IsAnswer policy name (err e) = IsKnown policy e
IsAnswer policy name (ok perms) =
    (p : Permission) → Memᴰ p perms.permissions ↔ Granted policy name p

-- The same for the loop over inherited names, which starts with some permissions.
abbrev Inherited : SecurityPolicy → List String → PermissionSet → Permission → Type 0
Inherited policy names base p =
    Memᴰ p base.permissions ⊎ ((name : String) × Memᴰ name names × Granted policy name p)

abbrev IsRightLoop :
    SecurityPolicy → List String → PermissionSet → Result PolicyError PermissionSet → Type 0
IsRightLoop policy names base (err e) = IsKnown policy e
IsRightLoop policy names base (ok perms) =
    (p : Permission) → Memᴰ p perms.permissions ↔ Inherited policy names base p

record Returns (policy : SecurityPolicy) (Right : Result PolicyError PermissionSet → Type 0)
    (visited : List String) (r : Option Resolution) : Type 0 where
  later : List String
  result : Result PolicyError PermissionSet
  returned : r ≡ some (later, result)
  no_fewer : unvisited policy.roles later ≤ unvisited policy.roles visited
  right : Right result

module _ (policy : SecurityPolicy) where
  no_names : (base : PermissionSet) → IsRightLoop policy [] base (ok base)
  no_names base p = (λ (m : Memᴰ p base.permissions). inl m, from)
    where
      from : Inherited policy [] base p → Memᴰ p base.permissions
      from (inl m) = m
      from (inr (name, m, g)) = absurd (Memᴰ.not-nil m)

  -- What a name gives joins what the names after it give.
  one_more :
      (name : String) (names : List String) (base ps : PermissionSet)
      → ((p : Permission) → Memᴰ p ps.permissions ↔ Granted policy name p)
      → (r : Result PolicyError PermissionSet) → IsRightLoop policy names (merge base ps) r
      → IsRightLoop policy (name ∷ names) base r
  one_more name names base ps here (err e) right = right
  one_more name names base ps here (ok perms) right = λ (p : Permission). (
    λ (m : Memᴰ p perms.permissions). to p ((right p).0 m),
    λ (i : Inherited policy (name ∷ names) base p). (right p).1 (from p i),
  )
    where
      grown :
          (p : Permission)
          → Memᴰ p base.permissions ⊎ Memᴰ p ps.permissions
          → Inherited policy (name ∷ names) base p
      grown p (inl m) = inl m
      grown p (inr m) = inr (name, Memᴰ.head refl, (here p).0 m)

      to :
          (p : Permission)
          → Inherited policy names (merge base ps) p
          → Inherited policy (name ∷ names) base p
      to p (inl m) = grown p (Memᴰ.append_cases base.permissions m)
      to p (inr (n, m, g)) = inr (n, Memᴰ.tail m, g)

      from :
          (p : Permission)
          → Inherited policy (name ∷ names) base p
          → Inherited policy names (merge base ps) p
      from p (inl m) = inl (Memᴰ.append_left ps.permissions m)
      from p (inr (n, Memᴰ.head e, g)) = inl (
          Memᴰ.append_right base.permissions
            ((here p).1 (subst (λ (s : String). Granted policy s p) e g)))
      from p (inr (n, Memᴰ.tail m, g)) = inr (n, m, g)

  module _ (bound : ℕ) (call : List String → String → Option Resolution)
      (answers : (visited : List String) (name : String)
        → unvisited policy.roles visited ≤ bound
        → Returns policy (IsAnswer policy name) visited (call visited name)) where
    inherit-Returns :
        (names visited : List String) (base : PermissionSet)
        → unvisited policy.roles visited ≤ bound
        → Returns policy (IsRightLoop policy names base) visited (inherit call names visited base)
    unfolding inherit
    inherit-Returns [] visited base h = record {
      later = visited;
      result = ok base;
      returned = refl;
      no_fewer = omega arith;
      right = no_names base;
    }
    inherit-Returns (name ∷ names) visited base h =
        let c = answers visited name h in
        after c.result c.later c.returned c.no_fewer c.right (inherit-Returns names)
      where
        after :
            (r : Result PolicyError PermissionSet) (later : List String)
            → call visited name ≡ some (later, r)
            → unvisited policy.roles later ≤ unvisited policy.roles visited
            → IsAnswer policy name r
            → ((v : List String) (b : PermissionSet)
                → unvisited policy.roles v ≤ bound
                → Returns policy (IsRightLoop policy names b) v (inherit call names v b))
            → Returns policy
                (IsRightLoop policy (name ∷ names) base)
                visited
                (inherit call (name ∷ names) visited base)
        after (err e) later eq fewer right go = record {
          later = later;
          result = err e;
          returned = ap (after_inherited (inherit call names) base) eq;
          no_fewer = fewer;
          right = right;
        }
        after (ok ps) later eq fewer right go =
            let rest = go later (merge base ps) (omega (arith, h, fewer)) in
            record {
              later = rest.later;
              result = rest.result;
              returned = ap (after_inherited (inherit call names) base) eq ∙ rest.returned;
              no_fewer = omega (arith, fewer, rest.no_fewer);
              right = one_more name names base ps right rest.result rest.right;
            }

  -- The name itself, before what it inherits.
  this_one :
      (name : String) (role : Role) (r : Result PolicyError PermissionSet)
      → get_role policy name ≡ some role
      → IsRightLoop policy role.inherits role.permissions r
      → IsAnswer policy name r
  this_one name role (err e) found right = right
  this_one name role (ok perms) found right = λ (p : Permission). (
    λ (m : Memᴰ p perms.permissions). to p ((right p).0 m),
    λ (g : Granted policy name p). (right p).1 (from p g),
  )
    where
      to :
          (p : Permission)
          → Inherited policy role.inherits role.permissions p
          → Granted policy name p
      to p (inl m) = own role found m
      to p (inr (parent, m, g)) = inherited role parent found m g

      from :
          (p : Permission)
          → Granted policy name p
          → Inherited policy role.inherits role.permissions p
      from p (own r e m) = inl (subst (λ (s : Role). Memᴰ p s.permissions.permissions) (only r e) m)
        where
          only : (s : Role) → get_role policy name ≡ some s → s ≡ role
          only s f = cc
      from p (inherited r parent e m g) =
          inr (parent, subst (λ (s : Role). Memᴰ parent s.inherits) (only r e) m, g)
        where
          only : (s : Role) → get_role policy name ≡ some s → s ≡ role
          only s f = cc

  found-Returns :
      (fuel : ℕ) (visited : List String) (name : String) (o : Option Role)
      → get_role policy name ≡ o
      → visits name visited ≡ false
      → unvisited policy.roles visited < suc fuel
      → ((v : List String) (n : String)
          → unvisited policy.roles v < fuel
          → Returns policy (IsAnswer policy n) v (resolve_role_permissions fuel policy v n))
      → Returns policy
          (IsAnswer policy name)
          visited
          (resolve_found (resolve_role_permissions fuel policy) (visited ++ name ∷ []) name o)
  unfolding resolve_found
  found-Returns fuel visited name none found new h answers = record {
    later = visited ++ name ∷ [];
    result = err (role_not_found name);
    returned = refl;
    no_fewer = unvisited-last policy.roles name visited;
    right = found;
  }
  found-Returns zero visited name (some role) found new h answers =
      absurd (omega (arith, unvisited-first policy.roles name role visited found new, h))
  found-Returns (suc fuel) visited name (some role) found new h answers =
      let fewer = unvisited-first policy.roles name role visited found new in
      let c =
        inherit-Returns fuel (resolve_role_permissions (suc fuel) policy)
          (λ (v : List String) (n : String) (le : unvisited policy.roles v ≤ fuel).
            answers v n (omega (arith, le)))
          role.inherits (visited ++ name ∷ []) role.permissions (omega (arith, fewer, h)) in
      record {
        later = c.later;
        result = c.result;
        returned = c.returned;
        no_fewer = omega (arith, c.no_fewer, fewer);
        right = this_one name role c.result found c.right;
      }

  resolution-Returns :
      (fuel : ℕ) (visited : List String) (name : String)
      → unvisited policy.roles visited < fuel
      → Returns policy
          (IsAnswer policy name)
          visited
          (resolve_role_permissions fuel policy visited name)
  unfolding resolve_role_permissions
  resolution-Returns zero visited name h = absurd (omega (arith, h))
  resolution-Returns (suc fuel) visited name h = elim (Bool-cases (visits name visited)) [
    | inl seen ↦ record {
      later = visited;
      result = err (circular_inheritance name);
      returned = rw seen refl;
      no_fewer = omega arith;
      right = tt;
    }
    | inr new ↦ rw new (
        found-Returns fuel visited name (get_role policy name) refl new h (resolution-Returns fuel))
  ]

-- With as many calls inside one another as there are roles, and one more, the resolution returns.
pub resolution-IsAnswer :
    (policy : SecurityPolicy) (name : String)
    → (visited : List String) × (r : Result PolicyError PermissionSet) × (resolve_role_permissions
          (fuel_of policy)
          policy
          []
          name
        ≡ some (visited, r))
      × IsAnswer policy name r
resolution-IsAnswer policy name =
    let c = resolution-Returns policy (fuel_of policy) [] name (at_most policy.roles) in
    (c.later, c.result, c.returned, c.right)
  where
    at_most : (roles : Dict Role) → unvisited roles [] < suc (length roles)
    at_most [] = omega arith
    at_most ((n, r) ∷ roles) = omega (arith, at_most roles)
