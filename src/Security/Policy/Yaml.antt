-- ===== src/Security/Policy/Yaml.antt =====
-- `Policy::from_yaml`, a reader of policy files, line by line. The file that `from_file` reads is a
-- parameter.
pub mod NoPermissions
mod Examples
use fipa_wasm.Base.{
  ℕ, String, List, [], ◌∷◌, Option, none, some, Bool, true, false, not, ◌&&◌, ◌||◌, ◌=s=◌, ◌==◌,
  map, filter, if◌then◌else◌,
}
use fipa_wasm.Base.Result.{Result, ok, err}
use fipa_wasm.Base.Text.{first_is, last_is, begins_with, ends_with, split_once}
use fipa_wasm.Base.Trim.{is_nil, trim, trim_matches, trim_end_by, trim_start_matches, split}
use fipa_wasm.Security.Permissions.{PermissionError, Resource, PermissionSet, read, parse}
use fipa_wasm.Security.Permissions
use fipa_wasm.Security.Policy.{
  Role, SecurityPolicy, PolicyError, invalid_format, new_role, with_description, default_policy,
  add_role, add_binding, new_binding,
}

abbrev pub is_quote : ℕ → Bool
is_quote n = n == b'"'

abbrev unquote : String → String
unfolding trim_matches
unquote s = trim_matches is_quote s

-- By the two parts of `splitn(2, ':')`.
abbrev key_value_of : String × Option String → Option (String × String)
unfolding trim
key_value_of (key, none) = none
key_value_of (key, some value) = some (trim key, unquote (trim value))

pub parse_key_value : String → Option (String × String)
unfolding key_value_of
parse_key_value line = key_value_of (split_once b':' line)

parse_list : String → List String
unfolding trim unquote
parse_list value =
    filter (λ (s : String). not (is_nil s))
      (map (λ (s : String). unquote (trim s))
        (split b',' (trim_matches (λ (n : ℕ). n == b'[' || n == b']') value)))

-- `current_section`, which is first empty.
pub data Section : Type 0 where
  nowhere in_policy in_roles in_bindings : Section

pub record Reading : Type 0 where
  pub policy : SecurityPolicy
  pub section : Section
  pub current_role : Option Role
  pub current_binding : Option (String × List String)

abbrev pub save_role : Option Role → SecurityPolicy → SecurityPolicy
save_role none policy = policy
save_role (some role) policy = add_role role policy

abbrev pub save_binding : Option (String × List String) → SecurityPolicy → SecurityPolicy
save_binding none policy = policy
save_binding (some (pattern, roles)) policy = add_binding (new_binding pattern roles) policy

-- `to_lowercase` is a parameter.
read_policy : (String → String) → Option (String × String) → SecurityPolicy → SecurityPolicy
read_policy lower none policy = policy
read_policy lower (some (key, value)) policy =
    if key =s= "name"
    then record policy { name = value }
    else if key =s= "version"
    then record policy { version = value }
    else if key =s= "default_deny"
    then record policy { default_deny = lower value =s= "true" }
    else policy

abbrev allow_parsed : Result PermissionError Resource → Role → Role
allow_parsed (err e) role = role
allow_parsed (ok resource) role = record role {
  permissions = Permissions.allow resource (read ∷ []) role.permissions;
}

-- A line of a role: its key and value, where it has them, and the line.
read_role : Option (String × String) → String → Role → Role
unfolding parse_list trim unquote
read_role (some (key, value)) line role =
    if key =s= "description"
    then with_description value role
    else if key =s= "inherits"
    then record role { inherits = parse_list value }
    else role
read_role none line role =
    if begins_with "- resource:" line
    then allow_parsed (parse (unquote (trim (trim_start_matches "- resource:" line)))) role
    else role

abbrev starts_role : String → Bool
starts_role line = not (first_is b'-' line) && not (first_is b' ' line) && last_is b':' line

abbrev in_role : String → Option Role → Option Role
unfolding read_role parse_key_value
in_role line none = none
in_role line (some role) = some (read_role (parse_key_value line) line role)

abbrev set_roles :
    Option (String × String) → Option (String × List String) → Option (String × List String)
unfolding parse_list
set_roles (some (key, value)) (some (pattern, roles)) =
    if key =s= "roles" then some (pattern, parse_list value) else some (pattern, roles)
set_roles pair binding = binding

-- A line that is not empty, no comment and no header of a section.
read_section : (String → String) → Section → String → Reading → Reading
unfolding parse_key_value read_policy in_role set_roles unquote trim
read_section lower nowhere line r = r
read_section lower in_policy line r = record r {
  policy = read_policy lower (parse_key_value line) r.policy;
}
read_section lower in_roles line r =
    if starts_role line
    then record r {
      policy = save_role r.current_role r.policy;
      current_role = some (new_role (trim_end_by (λ (n : ℕ). n == b':') line));
    }
    else record r { current_role = in_role line r.current_role }
read_section lower in_bindings line r =
    if begins_with "- agent:" line
    then record r {
      policy = save_binding r.current_binding r.policy;
      current_binding = some (unquote (trim (trim_start_matches "- agent:" line)), []);
    }
    else record r { current_binding = set_roles (parse_key_value line) r.current_binding }

-- A header of the roles or of the bindings, which ends the role before it.
abbrev enter : Section → Reading → Reading
enter section r = record r {
  policy = save_role r.current_role r.policy;
  section = section;
  current_role = none;
}

read_trimmed : (String → String) → String → Reading → Reading
unfolding read_section
read_trimmed lower line r =
    if is_nil line || first_is b'#' line
    then r
    else if line =s= "policy:"
    then record r { section = in_policy }
    else if line =s= "roles:"
    then enter in_roles r
    else if line =s= "bindings:"
    then enter in_bindings r
    else read_section lower r.section line r

read_lines : (String → String) → List String → Reading → Reading
unfolding read_trimmed trim
read_lines lower [] r = r
read_lines lower (line ∷ lines) r = read_lines lower lines (read_trimmed lower (trim line) r)

abbrev start : Reading
start = record {
  policy = default_policy;
  section = nowhere;
  current_role = none;
  current_binding = none;
}

-- `lines` also drops a last empty line and a carriage return, as `trim` and the first test do.
pub from_yaml : (String → String) → String → Result PolicyError SecurityPolicy
unfolding read_lines
from_yaml lower content =
    let r = read_lines lower (split 10 content) start in
    ok (save_binding r.current_binding (save_role r.current_role r.policy))

-- `fs::read_to_string` gives the content, or the error that `?` passes on.
from_file :
    (String → String)
    → (String → Result PolicyError String)
    → String
    → Result PolicyError SecurityPolicy
unfolding from_yaml
from_file lower read_file path = elim (read_file path) [
  | err e ↦ err e
  | ok content ↦
      if ends_with ".yaml" path || ends_with ".yml" path
      then from_yaml lower content
      else if ends_with ".toml" path
      then err (invalid_format "TOML support not yet implemented")
      else from_yaml lower content
]
