-- ===== src/Security/Policy/Engine/Examples.antt =====
-- A policy engine at concrete inputs.
use fipa_wasm.Base.{String, List, [], ◌∷◌, ◌≡◌, refl, some}
use fipa_wasm.Base.Result.{Result}
use fipa_wasm.Base.Dict.{insertion_order}
use fipa_wasm.Security.Permissions.{
  PermissionSet, delete, create, new_resource, all_of, parse, from_str, resource_of,
}
use fipa_wasm.Base.Text.{split_once}
use fipa_wasm.Security.Policy.{
  Role, SecurityPolicy, PolicyError, new_role, allow, deny, inherits_from, new_policy, add_role,
  new_binding,
}
use fipa_wasm.Security.Policy.Engine.{
  PolicyEngine, new_engine, resolve_role_permissions, fuel_of, check_permission,
  get_agent_permissions,
}
use fipa_wasm.Security.Policy.Engine.Circular.{IsRight, resolve_role_permissions-returns}
use fipa_wasm.Security.Policy.Engine.Caches.{Call, setting, binding, builtin, asking, performs}
use fipa_wasm.Security.Policy.Engine.Stale.{add_builtin_role-get_agent_permissions}
use fipa_wasm.Security.Policy.Engine.Decisions.{policy_at, decision, check_permission-decision}

abbrev worker : Role
worker = allow (all_of "agent") (create ∷ delete ∷ []) (new_role "worker")

abbrev guarded : Role
guarded =
    inherits_from "worker" (deny (new_resource "agent" "ams") (delete ∷ []) (new_role "guarded"))

abbrev two_roles : SecurityPolicy
two_roles = add_role guarded (add_role worker (new_policy "two"))

resolve_role_permissions-returns_example :
    (visited : List String) × (r : Result PolicyError PermissionSet) × (resolve_role_permissions
        (fuel_of two_roles)
        two_roles
        []
        "guarded"
      ≡ some (visited, r))
    × IsRight two_roles "guarded" r
resolve_role_permissions-returns_example = resolve_role_permissions-returns two_roles "guarded"

abbrev calls : List Call
calls = asking "a-1" "agent/ams" "delete" ∷ binding (new_binding "a-*" ("guarded" ∷ [])) ∷ []

abbrev same_text : String → String
same_text s = s

check_permission-decision_example :
    let e = performs insertion_order same_text (setting two_roles ∷ calls) new_engine in
    (check_permission same_text e "a-1" "agent/ams" "delete").1
    ≡ decision
        (policy_at two_roles calls)
        "a-1"
        (new_resource "agent" "ams")
        (from_str same_text "delete")
unfolding parse resource_of split_once
check_permission-decision_example =
    check_permission-decision insertion_order same_text two_roles calls new_engine "a-1" "agent/ams"
      "delete" (new_resource "agent" "ams") refl refl

-- The role of the agent is added again, without its permissions.
abbrev emptied : List Call
emptied = builtin (new_role "worker") ∷ asking "b-1" "agent/ams" "delete" ∷ []

abbrev engine : PolicyEngine
engine =
    performs insertion_order same_text
      (setting two_roles ∷ binding (new_binding "a-*" ("worker" ∷ [])) ∷ []) new_engine

add_builtin_role-get_agent_permissions_example :
    let asked = get_agent_permissions engine "a-1" in
    (get_agent_permissions (performs insertion_order same_text emptied asked.0) "a-1").1 ≡ asked.1
add_builtin_role-get_agent_permissions_example =
    add_builtin_role-get_agent_permissions insertion_order same_text emptied engine "a-1" refl
