-- ===== src/Security/Policy/Engine/Roles.antt =====
-- What the role cache of a `PolicyEngine` holds.
use mathlib.Core.Logic.{∥∥₁_elim}
use mathlib.Core.List.{Perm, Permᴰ}
use fipa_wasm.Base.{
  ℕ, zero, suc, String, List, [], ◌∷◌, ◌++◌, ◌≡◌, refl, sym, ap, ◌∙◌, Option, none, some, Bool,
  true, false, ◌||◌, any, arith, if◌then◌else◌, eq_iff, ◌=s=◌,
}
use fipa_wasm.Base.Result.{ok, err}
use fipa_wasm.Base.Dict.{Dict, HashOrder, get, get-insert}
use fipa_wasm.Security.Permissions.{PermissionSet}
use fipa_wasm.Security.Policy.{
  Role, RoleBinding, SecurityPolicy, add_binding, get_role, circular_inheritance,
}
use fipa_wasm.Security.Policy.Engine.{
  PolicyEngine, Resolution, visits, set_policy, resolve_found, resolve_role_permissions, fuel_of,
  cache_role, cache_roles,
}

abbrev permissions_of : Option Resolution → Option PermissionSet
permissions_of (some (visited, ok perms)) = some perms
permissions_of resolution = none

-- The permissions of a role with all that it inherits, where it resolves.
abbrev pub resolved : SecurityPolicy → String → Option PermissionSet
resolved policy name = permissions_of (resolve_role_permissions (fuel_of policy) policy [] name)

abbrev or_else : Option PermissionSet → Option PermissionSet → Option PermissionSet
or_else none old = old
or_else (some perms) old = some perms

abbrev has : String → List (String × Role) → Bool
has name roles = any (λ (e : String × Role). e.0 =s= name) roles

get-cache_role :
    (name other : String) (r : Option Resolution) (cache : Dict PermissionSet)
    → get other (cache_role name r cache)
      ≡ (if name =s= other then or_else (permissions_of r) (get other cache) else get other cache)
get-cache_role name other none cache = ground arith
get-cache_role name other (some (visited, err e)) cache = ground arith
get-cache_role name other (some (visited, ok perms)) cache = get-insert name other perms cache

-- A role that the walk meets again brings nothing new.
met_again :
    (same later : Bool) (p q g : Option PermissionSet)
    → (same ≡ true → p ≡ q)
    → (if later
        then or_else q (if same then or_else p g else g)
        else if same
        then or_else p g
        else g)
      ≡ (if same || later then or_else q g else g)
met_again true true p none g e = rw (e refl) refl
met_again true true p (some perms) g e = refl
met_again true false p q g e = rw (e refl) refl
met_again false later p q g e = refl

get-cache_roles :
    (policy : SecurityPolicy) (roles : List (String × Role)) (cache : Dict PermissionSet)
    (other : String)
    → get other (cache_roles policy roles cache) ≡ (
        if has other roles
        then or_else (resolved policy other) (get other cache)
        else get other cache)
unfolding cache_roles
get-cache_roles policy [] cache other = refl
get-cache_roles policy ((name, role) ∷ roles) cache other =
    let r = resolve_role_permissions (fuel_of policy) policy [] name in
    get-cache_roles policy roles (cache_role name r cache) other
    ∙ ap
        (λ (c : Option PermissionSet).
          if has other roles then or_else (resolved policy other) c else c)
        (get-cache_role name other r cache)
    ∙ met_again (name =s= other) (has other roles) (resolved policy name) (resolved policy other)
        (get other cache) (λ e. ap (resolved policy) ((eq_iff name other).0 e))

has-permᴰ : (name : String) {xs ys : List (String × Role)} → Permᴰ xs ys → has name xs ≡ has name ys
has-permᴰ name Permᴰ.nil = refl
has-permᴰ name (Permᴰ.cons e p) = rw (e, has-permᴰ name p) refl
has-permᴰ name (Permᴰ.swap {a = a} {b = b} {a' = a'} {b' = b'} {l = l} e e') =
    rw (e, e') (swapped (b'.0 =s= name) (a'.0 =s= name) (has name l))
  where
    swapped : (x y z : Bool) → x || (y || z) ≡ y || (x || z)
    swapped x y z = ground arith
has-permᴰ name (Permᴰ.trans p q) = has-permᴰ name p ∙ has-permᴰ name q

Bool-set : IsSet Bool
Bool-set = hlevel

has-perm : (name : String) {xs ys : List (String × Role)} → Perm xs ys → has name xs ≡ has name ys
has-perm name p = ∥∥₁_elim p (Bool-set _ _) (has-permᴰ name)

has-get : (name : String) (roles : Dict Role) → has name roles ≡ false → get name roles ≡ none
unfolding get
has-get name [] n = refl
has-get name ((k, r) ∷ roles) n = ground (arith, has-get name roles)

resolved-missing :
    (policy : SecurityPolicy) (name : String)
    → get_role policy name ≡ none
    → resolved policy name ≡ none
unfolding resolve_role_permissions resolve_found
resolved-missing policy name n = rw n refl

-- A policy that is set fills the role cache with the roles that resolve.
pub set_policy-resolved :
    (h : HashOrder) (policy : SecurityPolicy) (e : PolicyEngine) (name : String)
    → get name (set_policy h policy e).role_cache ≡ resolved policy name
unfolding set_policy get
set_policy-resolved h policy e name =
    get-cache_roles policy (h.order Role policy.roles) [] name ∙ by (has name policy.roles) refl
  where
    by :
        (there : Bool)
        → has name policy.roles ≡ there
        → (if has name (h.order Role policy.roles)
            then or_else (resolved policy name) none
            else none)
          ≡ resolved policy name
    by true t =
        rw (has-perm name (h.order_perm Role policy.roles), t) (whole (resolved policy name))
      where
        whole : (o : Option PermissionSet) → or_else o none ≡ o
        whole none = refl
        whole (some perms) = refl
    by false t =
        rw (has-perm name (h.order_perm Role policy.roles), t)
          (sym (resolved-missing policy name (has-get name policy.roles t)))

-- A binding changes nothing of the roles.
resolution-add_binding :
    (fuel : ℕ) (policy : SecurityPolicy) (b : RoleBinding)
    → resolve_role_permissions fuel (add_binding b policy) ≡ resolve_role_permissions fuel policy
unfolding resolve_role_permissions
resolution-add_binding zero policy b = refl
resolution-add_binding (suc fuel) policy b =
    ap {B = List String → String → Option Resolution}
      (λ (call : List String → String → Option Resolution) (visited : List String) (name : String).
        if visits name visited
        then some (visited, err (circular_inheritance name))
        else resolve_found call (visited ++ name ∷ []) name (get_role policy name))
      (resolution-add_binding fuel policy b)

pub resolved-add_binding :
    (policy : SecurityPolicy) (b : RoleBinding) (name : String)
    → resolved (add_binding b policy) name ≡ resolved policy name
resolved-add_binding policy b name =
    ap (λ (call : List String → String → Option Resolution). permissions_of (call [] name))
      (resolution-add_binding (fuel_of policy) policy b)
