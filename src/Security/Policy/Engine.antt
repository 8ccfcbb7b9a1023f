-- ===== src/Security/Policy/Engine.antt =====
-- `PolicyEngine`: the permissions of roles, resolved when a policy is set, and those of agents, kept
-- from the first question on.

pub mod Circular
pub mod Walks
pub mod Unvisited
pub mod Resolution
pub mod Caches
pub mod Roles
pub mod Stale
pub mod Decisions
mod Examples
use fipa_wasm.Base.{
  ℕ, zero, suc, String, List, [], ◌∷◌, ◌++◌, Option, none, some, Bool, true, false, any, ◌=s=◌, map,
  length, if◌then◌else◌,
}
use fipa_wasm.Base.Result.{Result, ok, err}
use fipa_wasm.Base.Dict.{Dict, HashOrder, get, insert}
use fipa_wasm.Security.Permissions.{
  PermissionError, Resource, Action, Permission, PermissionSet, new_set, check, merge, parse,
  from_str, new_resource, all_of, create, read, update, delete, execute, admin,
}
use fipa_wasm.Security.Policy.{
  Role, RoleBinding, SecurityPolicy, PolicyError, circular_inheritance, role_not_found, new_role,
  with_description, allow, new_binding, binding_matches, default_policy, add_role, add_binding,
  get_role,
}

pub record PolicyEngine : Type 0 where
  pub policy : Option SecurityPolicy
  pub role_cache : Dict PermissionSet
  pub agent_cache : Dict PermissionSet

abbrev pub new_engine : PolicyEngine
new_engine = record { policy = none; role_cache = []; agent_cache = [] }

-- The names that were visited, which the code's `&mut` argument keeps, and the result.
abbrev pub Resolution : Type 0
Resolution = List String × Result PolicyError PermissionSet

abbrev pub visits : String → List String → Bool
visits name visited = any (λ (v : String). v =s= name) visited

-- The loop over the inherited names: `call` is the recursive call, `go` the rest of the loop. A call
-- that has run out of fuel is `none`.
abbrev pub after_inherited :
    (List String → PermissionSet → Option Resolution)
    → PermissionSet
    → Option Resolution
    → Option Resolution
after_inherited go perms none = none
after_inherited go perms (some (visited, err e)) = some (visited, err e)
after_inherited go perms (some (visited, ok inherited)) = go visited (merge perms inherited)

pub inherit :
    (List String → String → Option Resolution)
    → List String
    → List String
    → PermissionSet
    → Option Resolution
inherit call [] visited perms = some (visited, ok perms)
inherit call (name ∷ names) visited perms =
    after_inherited (inherit call names) perms (call visited name)

-- `call` is the recursive call, and the name is among the visited ones.
pub resolve_found :
    (List String → String → Option Resolution)
    → List String
    → String
    → Option Role
    → Option Resolution
unfolding inherit
resolve_found call visited role_name none = some (visited, err (role_not_found role_name))
resolve_found call visited role_name (some role) =
    inherit call role.inherits visited role.permissions

-- Fuel for the depth of the calls, the policy, the visited names, the name.
pub resolve_role_permissions : ℕ → SecurityPolicy → List String → String → Option Resolution
unfolding resolve_found
resolve_role_permissions zero policy visited role_name = none
resolve_role_permissions (suc fuel) policy visited role_name =
    let found =
      resolve_found (resolve_role_permissions fuel policy) (visited ++ role_name ∷ []) role_name
        (get_role policy role_name) in
    if visits role_name visited then some (visited, err (circular_inheritance role_name)) else found

-- Enough fuel: see `resolve_role_permissions-returns`.
abbrev pub fuel_of : SecurityPolicy → ℕ
fuel_of policy = suc (length policy.roles)

abbrev pub cache_role : String → Option Resolution → Dict PermissionSet → Dict PermissionSet
cache_role name (some (visited, ok perms)) cache = insert name perms cache
cache_role name resolution cache = cache

pub cache_roles : SecurityPolicy → List (String × Role) → Dict PermissionSet → Dict PermissionSet
unfolding resolve_role_permissions
cache_roles policy [] cache = cache
cache_roles policy ((name, role) ∷ roles) cache =
    cache_roles policy roles
      (cache_role name (resolve_role_permissions (fuel_of policy) policy [] name) cache)

pub set_policy : HashOrder → SecurityPolicy → PolicyEngine → PolicyEngine
unfolding cache_roles
set_policy h policy e = record {
  policy = some policy;
  role_cache = cache_roles policy (h.order Role policy.roles) [];
  agent_cache = [];
}

abbrev pub merge_cached : PermissionSet → Option PermissionSet → PermissionSet
merge_cached perms none = perms
merge_cached perms (some role_perms) = merge perms role_perms

pub add_roles : Dict PermissionSet → List String → PermissionSet → PermissionSet
add_roles cache [] perms = perms
add_roles cache (name ∷ names) perms = add_roles cache names (merge_cached perms (get name cache))

pub add_if : Bool → Dict PermissionSet → List String → PermissionSet → PermissionSet
unfolding add_roles
add_if true cache names perms = add_roles cache names perms
add_if false cache names perms = perms

pub add_bindings : Dict PermissionSet → List RoleBinding → String → PermissionSet → PermissionSet
unfolding add_if
add_bindings cache [] agent_name perms = perms
add_bindings cache (binding ∷ bindings) agent_name perms =
    add_bindings cache bindings agent_name
      (add_if (binding_matches binding agent_name) cache binding.roles perms)

-- What `get_agent_permissions` computes where nothing is cached.
abbrev pub bound_permissions : Option SecurityPolicy → Dict PermissionSet → String → PermissionSet
bound_permissions none cache agent_name = new_set
bound_permissions (some policy) cache agent_name =
    add_bindings cache policy.bindings agent_name new_set

abbrev pub cached_or : PolicyEngine → String → Option PermissionSet → PolicyEngine × PermissionSet
cached_or e agent_name (some perms) = (e, perms)
cached_or e agent_name none =
    let perms = bound_permissions e.policy e.role_cache agent_name in
    (record e { agent_cache = insert agent_name perms e.agent_cache }, perms)

pub get_agent_permissions : PolicyEngine → String → PolicyEngine × PermissionSet
get_agent_permissions e agent_name = cached_or e agent_name (get agent_name e.agent_cache)

abbrev pub check_parsed : PermissionSet → Result PermissionError Resource → Action → Bool
check_parsed perms (err e) action = false
check_parsed perms (ok resource) action = check perms resource action

-- `to_lowercase` is a parameter, for the actions.
pub check_permission :
    (String → String) → PolicyEngine → String → String → String → PolicyEngine × Bool
unfolding get_agent_permissions
check_permission lower e agent_name resource action =
    let r = get_agent_permissions e agent_name in
    (r.0, check_parsed r.1 (parse resource) (from_str lower action))

abbrev pub policy_of : Option SecurityPolicy → SecurityPolicy
policy_of none = default_policy
policy_of (some policy) = policy

pub add_builtin_role : Role → PolicyEngine → PolicyEngine
add_builtin_role role e = record {
  policy = some (add_role role (policy_of e.policy));
  role_cache = insert role.name role.permissions e.role_cache;
  agent_cache = e.agent_cache;
}

pub bind : RoleBinding → PolicyEngine → PolicyEngine
bind binding e = record {
  policy = some (add_binding binding (policy_of e.policy));
  role_cache = e.role_cache;
  agent_cache = [];
}

abbrev pub with_defaults : PolicyEngine → PolicyEngine
unfolding add_builtin_role bind
with_defaults e =
    let admin_role =
      allow (all_of "*") (admin ∷ [])
        (with_description "Full administrative access" (new_role "admin")) in
    let platform = allow (all_of "message") (read ∷ execute ∷ []) (
      allow (all_of "service") (read ∷ create ∷ update ∷ delete ∷ []) (
        allow (all_of "agent") (read ∷ create ∷ delete ∷ [])
          (with_description "Platform agent access" (new_role "platform")))) in
    let user = allow (new_resource "platform" "df") (read ∷ execute ∷ []) (
      allow (all_of "service") (read ∷ []) (
        allow (all_of "agent") (read ∷ [])
          (with_description "Standard user access" (new_role "user")))) in
    let anonymous =
      allow (new_resource "platform" "df") (read ∷ [])
        (with_description "Minimal anonymous access" (new_role "anonymous")) in
    let with_roles =
      add_builtin_role anonymous
        (add_builtin_role user (add_builtin_role platform (add_builtin_role admin_role e))) in
    bind (new_binding "*" ("user" ∷ [])) (
      bind (new_binding "df" ("platform" ∷ []))
        (bind (new_binding "ams" ("platform" ∷ "admin" ∷ [])) with_roles))
