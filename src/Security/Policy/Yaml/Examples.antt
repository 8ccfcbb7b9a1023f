-- ===== src/Security/Policy/Yaml/Examples.antt =====
-- A policy file that would give a role every permission.
use fipa_wasm.Base.{String, ◌≡◌, refl}
use fipa_wasm.Base.Dict.{get, insert}
use fipa_wasm.Base.Text.{first_is, last_is, begins_with, split_once}
use fipa_wasm.Base.Trim.{trim, trim_matches, trim_end_by, trim_start_by, trim_start_matches, split}
use fipa_wasm.Security.Permissions.{new_set}
use fipa_wasm.Security.Policy.{Role, new_role, with_description, default_policy, add_role}
use fipa_wasm.Security.Policy.Yaml.{
  from_yaml, read_lines, read_trimmed, read_section, read_role, in_role, parse_key_value,
  key_value_of, unquote,
}
use fipa_wasm.Security.Policy.Yaml.NoPermissions.{from_yaml-permissions}

abbrev content : String
content = "roles:\n  admin:\n    description: all\n    - resource: \"*/*\"\n"

abbrev admin_role : Role
admin_role = with_description "all" (new_role "admin")

abbrev same_text : String → String
same_text s = s

from_yaml-permissions_example : admin_role.permissions ≡ new_set
unfolding from_yaml read_lines read_trimmed read_section read_role in_role parse_key_value
    key_value_of unquote trim trim_matches trim_end_by trim_start_by trim_start_matches split
    first_is last_is begins_with split_once get insert
from_yaml-permissions_example =
    from_yaml-permissions same_text content (add_role admin_role default_policy) "admin" admin_role
      refl refl
