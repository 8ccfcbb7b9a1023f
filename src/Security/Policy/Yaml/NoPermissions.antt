-- ===== src/Security/Policy/Yaml/NoPermissions.antt =====
-- What a policy that was read from a file grants.

use fipa_wasm.Base.{
  ℕ, String, List, [], ◌∷◌, ◌≡◌, refl, sym, ap, ◌∙◌, subst, Option, none, some, Bool, true, false,
  ◌||◌, ◌=s=◌, arith, if◌then◌else◌, inl, inr, Bool-cases,
}
use fipa_wasm.Base.Result.{Result, ok}
use fipa_wasm.Base.Dict.{get, insert, get-insert}
use fipa_wasm.Base.Text.{has_char, first_is, begins_with, split_once}
use fipa_wasm.Base.Trim.{is_nil, trim, split}
use fipa_wasm.Security.Permissions.{new_set}
use fipa_wasm.Security.Policy.{Role, SecurityPolicy, PolicyError, new_role, get_role}
use fipa_wasm.Security.Policy.Yaml.{
  Section, nowhere, in_policy, in_roles, in_bindings, Reading, key_value_of, parse_key_value,
  save_role, save_binding, read_policy, read_role, in_role, starts_role, read_section, enter,
  read_trimmed, read_lines, start, from_yaml,
}

split_once-none : (n : ℕ) (s : String) → (split_once n s).1 ≡ none → has_char n s ≡ false
unfolding split_once has_char
split_once-none n String.[] h = refl
split_once-none n (String.◌∷◌ c s) h = ground (arith, split_once-none n s)

begins_with-has_char :
    (n : ℕ) (p s : String) → begins_with p s ≡ true → has_char n p ≡ true → has_char n s ≡ true
unfolding begins_with has_char
begins_with-has_char n String.[] s b h = cc
begins_with-has_char n (String.◌∷◌ c p) String.[] b h = cc
begins_with-has_char n (String.◌∷◌ c p) (String.◌∷◌ d s) b h =
    ground (arith, begins_with-has_char n p s)

key_value_of-none : (r : String × Option String) → key_value_of r ≡ none → r.1 ≡ none
unfolding key_value_of
key_value_of-none (key, none) h = refl
key_value_of-none (key, some value) h = cc

-- A line without key and value has no colon, so it names no resource.
key_value-none :
    (line : String) → parse_key_value line ≡ none → begins_with "- resource:" line ≡ false
unfolding parse_key_value has_char
key_value-none line h = elim (Bool-cases (begins_with "- resource:" line)) [
  | inl b ↦ absurd (
      unlike (split_once-none 58 line (key_value_of-none (split_once 58 line) h))
        (begins_with-has_char 58 "- resource:" line b refl))
  | inr b ↦ b
]
  where
    unlike : {b : Bool} → b ≡ false → b ≡ true → ⊥
    unlike p q = cc

read_role-permissions :
    (line : String) (role : Role) (o : Option (String × String))
    → parse_key_value line ≡ o
    → (read_role o line role).permissions ≡ role.permissions
unfolding read_role
read_role-permissions line role (some (key, value)) e = ground arith
read_role-permissions line role none e = rw (key_value-none line e) refl

in_role-permissions :
    (line : String) (o : Option Role)
    → ((role : Role) → o ≡ some role → role.permissions ≡ new_set)
    → (role : Role) → in_role line o ≡ some role
    → role.permissions ≡ new_set
unfolding in_role
in_role-permissions line none bare role h = cc
in_role-permissions line (some before) bare role h =
    subst (λ (r : Role). r.permissions ≡ new_set) (same h)
      (read_role-permissions line before (parse_key_value line) refl ∙ bare before refl)
  where
    same :
        {r : Role}
        → some (read_role (parse_key_value line) line before) ≡ some r
        → read_role (parse_key_value line) line before ≡ r
    same e = cc

-- No role has a permission: neither a role of the policy nor the one that is being read.
record IsBare (policy : SecurityPolicy) (current : Option Role) : Type 0 where
  roles :
      (name : String) (role : Role) → get name policy.roles ≡ some role → role.permissions ≡ new_set
  pending : (role : Role) → current ≡ some role → role.permissions ≡ new_set

save_role-IsBare :
    (policy : SecurityPolicy) (o : Option Role) → IsBare policy o → IsBare (save_role o policy) none
save_role-IsBare policy none bare = bare
save_role-IsBare policy (some role) bare = record { roles = kept; pending = none_left }
  where
    none_left : (r : Role) → ◌≡◌ {A = Option Role} none (some r) → r.permissions ≡ new_set
    none_left r h = cc

    only : (r : Role) → some role ≡ some r → role ≡ r
    only r q = cc

    read :
        (hit : Bool) (name : String) (r : Role)
        → (if hit then some role else get name policy.roles) ≡ some r
        → r.permissions ≡ new_set
    read true name r q =
        subst (λ (x : Role). x.permissions ≡ new_set) (only r q) (bare.pending role refl)
    read false name r q = bare.roles name r q

    kept :
        (name : String) (r : Role)
        → get name (insert role.name role policy.roles) ≡ some r
        → r.permissions ≡ new_set
    kept name r f =
        read (role.name =s= name) name r (sym (get-insert role.name name role policy.roles) ∙ f)

save_binding-roles :
    (o : Option (String × List String)) (policy : SecurityPolicy)
    → (save_binding o policy).roles ≡ policy.roles
save_binding-roles none policy = refl
save_binding-roles (some (pattern, roles)) policy = refl

read_policy-roles :
    (lower : String → String) (o : Option (String × String)) (policy : SecurityPolicy)
    → (read_policy lower o policy).roles ≡ policy.roles
unfolding read_policy
read_policy-roles lower none policy = refl
read_policy-roles lower (some (key, value)) policy = ground arith

same_roles-IsBare :
    (before after : SecurityPolicy) (o : Option Role)
    → after.roles ≡ before.roles
    → IsBare before o
    → IsBare after o
same_roles-IsBare before after o e bare = record {
  roles = λ (name : String) (role : Role) (f : get name after.roles ≡ some role).
      bare.roles name role (ap (get name) (sym e) ∙ f);
  pending = bare.pending;
}

abbrev IsBareReading : Reading → Type 0
IsBareReading r = IsBare r.policy r.current_role

new_role-permissions :
    (name : String) (role : Role) → some (new_role name) ≡ some role → role.permissions ≡ new_set
new_role-permissions name role h = subst (λ (r : Role). r.permissions ≡ new_set) (same h) refl
  where
    same : some (new_role name) ≡ some role → new_role name ≡ role
    same e = cc

read_section-IsBare :
    (lower : String → String) (s : Section) (line : String) (r : Reading)
    → IsBareReading r
    → IsBareReading (read_section lower s line r)
unfolding read_section
read_section-IsBare lower nowhere line r bare = bare
read_section-IsBare lower in_policy line r bare =
    same_roles-IsBare r.policy (read_policy lower (parse_key_value line) r.policy) r.current_role
      (read_policy-roles lower (parse_key_value line) r.policy) bare
read_section-IsBare lower in_roles line r bare = elim (Bool-cases (starts_role line)) [
  | inl e ↦ rw e (record {
    roles = (save_role-IsBare r.policy r.current_role bare).roles;
    pending = new_role-permissions _;
  })
  | inr e ↦ rw e (record {
    roles = bare.roles;
    pending = in_role-permissions line r.current_role bare.pending;
  })
]
read_section-IsBare lower in_bindings line r bare =
    elim (Bool-cases (begins_with "- agent:" line)) [
      | inl e ↦ rw e (
          same_roles-IsBare r.policy (save_binding r.current_binding r.policy) r.current_role
            (save_binding-roles r.current_binding r.policy) bare)
      | inr e ↦ rw e bare
    ]

enter-IsBare : (s : Section) (r : Reading) → IsBareReading r → IsBareReading (enter s r)
enter-IsBare s r bare = save_role-IsBare r.policy r.current_role bare

read_trimmed-IsBare :
    (lower : String → String) (line : String) (r : Reading)
    → IsBareReading r
    → IsBareReading (read_trimmed lower line r)
unfolding read_trimmed
read_trimmed-IsBare lower line r bare = elim (Bool-cases (is_nil line || first_is b'#' line)) [
  | inl a ↦ rw a bare
  | inr a ↦ elim (Bool-cases (line =s= "policy:")) [
    | inl b ↦ rw (a, b) bare
    | inr b ↦ elim (Bool-cases (line =s= "roles:")) [
      | inl c ↦ rw (a, b, c) (enter-IsBare in_roles r bare)
      | inr c ↦ elim (Bool-cases (line =s= "bindings:")) [
        | inl d ↦ rw (a, b, c, d) (enter-IsBare in_bindings r bare)
        | inr d ↦ rw (a, b, c, d) (read_section-IsBare lower r.section line r bare)
      ]
    ]
  ]
]

read_lines-IsBare :
    (lower : String → String) (lines : List String) (r : Reading)
    → IsBareReading r
    → IsBareReading (read_lines lower lines r)
unfolding read_lines
read_lines-IsBare lower [] r bare = bare
read_lines-IsBare lower (line ∷ lines) r bare =
    read_lines-IsBare lower lines (read_trimmed lower (trim line) r)
      (read_trimmed-IsBare lower (trim line) r bare)

start-IsBare : IsBareReading start
unfolding get
start-IsBare = record {
  roles = λ (n : String) (role : Role) (h : get n [] ≡ some role). no_role h;
  pending = λ (role : Role) (h : none ≡ some role). no_role h;
}
  where
    no_role : {role : Role} → none ≡ some role → role.permissions ≡ new_set
    no_role h = cc

-- Whatever a policy file says, no role of the policy that is read from it has a permission.
pub from_yaml-permissions :
    (lower : String → String) (content : String) (policy : SecurityPolicy) (name : String)
    (role : Role)
    → from_yaml lower content ≡ ok policy
    → get_role policy name ≡ some role
    → role.permissions ≡ new_set
unfolding from_yaml
from_yaml-permissions lower content policy name role read found =
    let r = read_lines lower (split 10 content) start in
    let bare =
      save_role-IsBare r.policy r.current_role
        (read_lines-IsBare lower (split 10 content) start start-IsBare) in
    let saved = save_role r.current_role r.policy in
    (same_roles-IsBare saved (save_binding r.current_binding saved) none
        (save_binding-roles r.current_binding saved) bare).roles
      name role (ap (λ (p : SecurityPolicy). get name p.roles) (same read) ∙ found)
  where
    same :
        {x y : SecurityPolicy} → ◌≡◌ {A = Result PolicyError SecurityPolicy} (ok x) (ok y) → x ≡ y
    same e = cc
