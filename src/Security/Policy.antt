-- ===== src/Security/Policy.antt =====
-- crates/fipa-wasm-agents/src/security/policy.rs. Roles by name are a map; the cached permissions of
-- roles and of agents are two more.
pub mod Engine
pub mod Yaml
use fipa_wasm.Base.{String, List, [], ◌∷◌, ◌++◌, Option, Bool, true}
use fipa_wasm.Base.Dict.{Dict, get, insert}
use fipa_wasm.Security.Permissions.{
  Resource, Action, Permission, PermissionSet, new_set, add, name_matches,
}
use fipa_wasm.Security.Permissions

-- `LoadError` and `IoError` come from the file that is read.
pub data PolicyError : Type 0 where
  load_error invalid_format role_not_found circular_inheritance io_error : String → PolicyError

pub record Role : Type 0 where
  pub name : String
  pub description : String
  pub permissions : PermissionSet
  pub inherits : List String

abbrev pub new_role : String → Role
new_role name = record { name = name; description = ""; permissions = new_set; inherits = [] }

abbrev pub with_description : String → Role → Role
with_description desc role = record role { description = desc }

abbrev pub with_permission : Permission → Role → Role
with_permission permission role = record role { permissions = add permission role.permissions }

abbrev pub allow : Resource → List Action → Role → Role
allow resource actions role = record role {
  permissions = Permissions.allow resource actions role.permissions;
}

abbrev pub deny : Resource → List Action → Role → Role
deny resource actions role = record role {
  permissions = Permissions.deny resource actions role.permissions;
}

abbrev pub inherits_from : String → Role → Role
inherits_from role_name role = record role { inherits = role.inherits ++ role_name ∷ [] }

pub record RoleBinding : Type 0 where
  pub agent_pattern : String
  pub roles : List String

abbrev pub new_binding : String → List String → RoleBinding
new_binding agent_pattern roles = record { agent_pattern = agent_pattern; roles = roles }

-- The code of `Resource`'s pattern, once more.
abbrev pub binding_matches : RoleBinding → String → Bool
binding_matches binding agent_name = name_matches binding.agent_pattern agent_name

pub record SecurityPolicy : Type 0 where
  pub name : String
  pub version : String
  pub roles : Dict Role
  pub bindings : List RoleBinding
  pub default_deny : Bool

abbrev pub default_policy : SecurityPolicy
default_policy = record {
  name = "default";
  version = "1.0";
  roles = [];
  bindings = [];
  default_deny = true;
}

abbrev pub new_policy : String → SecurityPolicy
new_policy name = record default_policy { name = name }

abbrev pub add_role : Role → SecurityPolicy → SecurityPolicy
add_role role policy = record policy { roles = insert role.name role policy.roles }

abbrev pub add_binding : RoleBinding → SecurityPolicy → SecurityPolicy
add_binding binding policy = record policy { bindings = policy.bindings ++ binding ∷ [] }

abbrev pub get_role : SecurityPolicy → String → Option Role
get_role policy name = get name policy.roles
