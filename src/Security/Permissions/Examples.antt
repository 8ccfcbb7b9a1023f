-- ===== src/Security/Permissions/Examples.antt =====
-- Sets of permissions and patterns at concrete inputs.
use mathlib.Core.List.Perm
use fipa_wasm.Base.{String, ◌≡◌, refl, [], ◌∷◌, true, false, ◌<>◌, ◌↔◌}
use fipa_wasm.Base.Result.{ok}
use fipa_wasm.Security.Permissions.{
  Resource, PermissionSet, create, delete, new_resource, all_of, new_set, allow, deny, check, merge,
  detailed_check, parse, to_string, name_matches, matches,
}
use fipa_wasm.Base.Text.{has_char, first_is, last_is, begins_with, remove_char}
use fipa_wasm.Security.Permissions.Decisions.{check-merge}
use fipa_wasm.Security.Permissions.Patterns.{parse-to_string, name_matches-begins_with}

abbrev agent : Resource
agent = new_resource "agent" "a-1"

abbrev granting : PermissionSet
granting = allow (all_of "agent") (create ∷ delete ∷ []) new_set

abbrev guarding : PermissionSet
guarding = deny (new_resource "agent" "a-*") (delete ∷ []) new_set

check-merge_example :
    (check (merge granting guarding) agent delete ≡ false)
    × ((detailed_check (merge granting guarding) agent delete).granted ≡ false)
unfolding matches has_char first_is last_is begins_with remove_char
check-merge_example =
    check-merge granting guarding (merge granting guarding) agent delete (Perm.refl _)

parse-to_string_example : parse (to_string agent) ≡ ok agent
unfolding has_char
parse-to_string_example = parse-to_string agent refl

name_matches-begins_with_example :
    (name_matches ("test-" <> "*") "test-agent" ≡ true)
    ↔ ((rest : String) × ("test-agent" ≡ "test-" <> rest))
unfolding has_char
name_matches-begins_with_example =
    name_matches-begins_with "test-" "test-agent" (λ (e : "test-" ≡ ""). cc) refl
