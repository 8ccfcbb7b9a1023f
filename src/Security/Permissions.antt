-- ===== src/Security/Permissions.antt =====
-- crates/fipa-wasm-agents/src/security/permissions.rs. A `HashSet` of actions is a list: the code only
-- asks whether some action of it fits.
pub mod Decisions
pub mod Patterns
mod Examples
use fipa_wasm.Base.{
  String, List, [], ◌∷◌, ◌++◌, Option, none, some, Bool, true, false, not, ◌&&◌, ◌||◌, any, ◌=s=◌,
  ◌<>◌, if◌then◌else◌,
}
use fipa_wasm.Base.Result.{Result, ok, err}
use fipa_wasm.Base.Text.{
  has_char, remove_char, first_is, last_is, begins_with, contains, ends_with, split_once,
}

pub data PermissionError : Type 0 where
  denied : String → String → PermissionError
  session_expired : PermissionError
  invalid_pattern unknown_resource : String → PermissionError

pub data Action : Type 0 where
  create read update delete execute subscribe admin : Action
  custom : String → Action

unfoldable pub as_str : Action → String
as_str create = "create"
as_str read = "read"
as_str update = "update"
as_str delete = "delete"
as_str execute = "execute"
as_str subscribe = "subscribe"
as_str admin = "admin"
as_str (custom s) = s

-- `to_lowercase` is a parameter.
pub from_str : (String → String) → String → Action
from_str lower s =
    let t = lower s in
    if t =s= "create"
    then create
    else if t =s= "read"
    then read
    else if t =s= "update"
    then update
    else if t =s= "delete"
    then delete
    else if t =s= "execute"
    then execute
    else if t =s= "subscribe"
    then subscribe
    else if t =s= "admin"
    then admin
    else custom s

-- The derived `==`.
abbrev pub same_action : Action → Action → Bool
same_action create create = true
same_action read read = true
same_action update update = true
same_action delete delete = true
same_action execute execute = true
same_action subscribe subscribe = true
same_action admin admin = true
same_action (custom s) (custom t) = s =s= t
same_action _ _ = false

abbrev pub is_admin : Action → Bool
is_admin admin = true
is_admin action = false

abbrev pub implies : Action → Action → Bool
implies a other = same_action a other || is_admin a

pub record Resource : Type 0 where
  pub resource_type : String
  pub name : String

abbrev pub new_resource : String → String → Resource
new_resource resource_type name = record { resource_type = resource_type; name = name }

abbrev pub all_of : String → Resource
all_of resource_type = record { resource_type = resource_type; name = "*" }

-- By the parts of `splitn(2, '/')`, of which there are one or two: the error is never met.
unfoldable pub resource_of : String × Option String → Resource
resource_of (front, none) = all_of front
resource_of (front, some back) = new_resource front back

unfoldable pub parse : String → Result PermissionError Resource
unfolding resource_of
parse s = ok (resource_of (split_once b'/' s))

pub to_string : Resource → String
to_string r = r.resource_type <> "/" <> r.name

-- A pattern without a star means itself, one with a star what is left of it without its stars.
pub name_matches : String → String → Bool
name_matches pattern name =
    let part = remove_char b'*' pattern in
    if pattern =s= "*"
    then true
    else if has_char b'*' pattern
    then (if first_is b'*' pattern && last_is b'*' pattern
        then contains part name
        else if first_is b'*' pattern
        then ends_with part name
        else if last_is b'*' pattern
        then begins_with part name
        else pattern =s= name)
    else pattern =s= name

pub matches : Resource → Resource → Bool
unfolding name_matches
matches r other =
    if not (r.resource_type =s= other.resource_type) && not (r.resource_type =s= "*")
    then false
    else name_matches r.name other.name

pub record Permission : Type 0 where
  pub resource : Resource
  pub actions : List Action
  pub is_deny : Bool

abbrev pub allowing : Resource → List Action → Permission
allowing resource actions = record { resource = resource; actions = actions; is_deny = false }

abbrev pub denying : Resource → List Action → Permission
denying resource actions = record { resource = resource; actions = actions; is_deny = true }

abbrev allow_all : Resource → Permission
allow_all resource = allowing resource (create ∷ read ∷ update ∷ delete ∷ execute ∷ subscribe ∷ [])

abbrev pub allows : Permission → Action → Bool
allows p action = if p.is_deny then false else any (λ (a : Action). implies a action) p.actions

abbrev pub denies : Permission → Action → Bool
denies p action =
    if not p.is_deny
    then false
    else any (λ (a : Action). same_action a action || is_admin a) p.actions

pub record PermissionSet : Type 0 where
  pub permissions : List Permission

abbrev pub new_set : PermissionSet
new_set = record { permissions = [] }

abbrev pub add : Permission → PermissionSet → PermissionSet
add p s = record { permissions = s.permissions ++ p ∷ [] }

abbrev admin_set : PermissionSet
admin_set = add (allowing (all_of "*") (admin ∷ [])) new_set

abbrev pub allow : Resource → List Action → PermissionSet → PermissionSet
allow resource actions = add (allowing resource actions)

abbrev pub deny : Resource → List Action → PermissionSet → PermissionSet
deny resource actions = add (denying resource actions)

-- The conditions of the two loops.
abbrev pub is_denial : Resource → Action → Permission → Bool
is_denial resource action p = p.is_deny && matches p.resource resource && denies p action

abbrev pub is_grant : Resource → Action → Permission → Bool
is_grant resource action p = not p.is_deny && matches p.resource resource && allows p action

unfoldable pub check : PermissionSet → Resource → Action → Bool
check s resource action =
    if any (is_denial resource action) s.permissions
    then false
    else any (is_grant resource action) s.permissions

abbrev pub merge : PermissionSet → PermissionSet → PermissionSet
merge s other = record { permissions = s.permissions ++ other.permissions }

pub record PermissionCheck : Type 0 where
  pub asked : Resource
  pub action : Action
  pub granted : Bool
  pub matching_permission : Option Permission
  pub reason : String

-- The first permission that a loop stops at.
abbrev pub find : (Permission → Bool) → List Permission → Option Permission
find test [] = none
find test (p ∷ ps) = if test p then some p else find test ps

answer : Resource → Action → Option Permission → Option Permission → PermissionCheck
unfolding to_string
answer resource action (some p) grant = record {
  asked = resource;
  action = action;
  granted = false;
  matching_permission = some p;
  reason = "Explicitly denied by permission on " <> to_string p.resource;
}
answer resource action none (some p) = record {
  asked = resource;
  action = action;
  granted = true;
  matching_permission = some p;
  reason = "Allowed by permission on " <> to_string p.resource;
}
answer resource action none none = record {
  asked = resource;
  action = action;
  granted = false;
  matching_permission = none;
  reason = "No matching permission found (default deny)";
}

-- `PermissionCheck::check`
pub detailed_check : PermissionSet → Resource → Action → PermissionCheck
unfolding answer
detailed_check s resource action =
    answer resource action (find (is_denial resource action) s.permissions)
      (find (is_grant resource action) s.permissions)
