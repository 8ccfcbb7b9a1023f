-- ===== src/Security/Policy/Engine/Decisions.antt =====
-- What a `PolicyEngine` decides, by the policy that it was given and the bindings that were added.

use fipa_wasm.Base.{
  String, List, [], ◌∷◌, ◌≡◌, refl, sym, ap, ◌∙◌, Option, none, some, Bool, false, not, ◌&&◌, any,
}
use fipa_wasm.Base.Result.{ok}
use fipa_wasm.Base.Dict.{HashOrder, get}
use fipa_wasm.Security.Permissions.{
  Resource, Action, Permission, PermissionSet, is_denial, is_grant, parse, from_str,
}
use fipa_wasm.Security.Policy.{RoleBinding, SecurityPolicy, add_binding, add_role, binding_matches}
use fipa_wasm.Security.Policy.Engine.{
  PolicyEngine, set_policy, bind, cached_or, get_agent_permissions, check_permission,
}
use fipa_wasm.Security.Policy.Engine.Caches.{
  Call, setting, binding, builtin, asking, is_builtin, perform, performs, some_cached, some_bound,
  check_permission-cached_decision, nothing_cached,
}
use fipa_wasm.Security.Policy.Engine.Roles.{resolved, set_policy-resolved, resolved-add_binding}

-- The policy as it is after the calls.
abbrev pub policy_at : SecurityPolicy → List Call → SecurityPolicy
policy_at policy [] = policy
policy_at policy (setting next ∷ calls) = policy_at next calls
policy_at policy (binding b ∷ calls) = policy_at (add_binding b policy) calls
policy_at policy (builtin role ∷ calls) = policy_at (add_role role policy) calls
policy_at policy (asking agent resource action ∷ calls) = policy_at policy calls

-- Some permission of a role that resolves and that a matching binding gives the agent passes the test.
abbrev pub some_given : (Permission → Bool) → SecurityPolicy → String → Bool
some_given test policy agent =
    any
      (λ (b : RoleBinding).
        binding_matches b agent
        && any (λ (n : String). some_cached test (resolved policy n)) b.roles)
      policy.bindings

-- The agent is granted the action and not denied it.
abbrev pub decision : SecurityPolicy → String → Resource → Action → Bool
decision policy agent resource action =
    some_given (is_grant resource action) policy agent
    && not (some_given (is_denial resource action) policy agent)

-- The engine serves the policy: it holds it, and the roles of it that resolve.
abbrev IsServing : SecurityPolicy → PolicyEngine → Type 0
IsServing policy e =
    (e.policy ≡ some policy) × ((name : String) → get name e.role_cache ≡ resolved policy name)

performs-IsServing :
    (h : HashOrder) (lower : String → String) (calls : List Call) (policy : SecurityPolicy)
    (e : PolicyEngine)
    → any is_builtin calls ≡ false
    → IsServing policy e
    → IsServing (policy_at policy calls) (performs h lower calls e)
unfolding bind check_permission get_agent_permissions set_policy
performs-IsServing h lower [] policy e n s = s
performs-IsServing h lower (setting next ∷ calls) policy e n s =
    performs-IsServing h lower calls next (set_policy h next e) n
      (refl, set_policy-resolved h next e)
performs-IsServing h lower (binding b ∷ calls) policy e n s =
    performs-IsServing h lower calls (add_binding b policy) (bind b e) n
      (rw s.0 refl, λ name. s.1 name ∙ sym (resolved-add_binding policy b name))
performs-IsServing h lower (builtin role ∷ calls) policy e n s = absurd (cc (n))
performs-IsServing h lower (asking agent resource action ∷ calls) policy e n s =
    performs-IsServing h lower calls policy (perform h lower (asking agent resource action) e) n
      (asked (get agent e.agent_cache))
  where
    asked : (o : Option PermissionSet) → IsServing policy (cached_or e agent o).0
    asked none = s
    asked (some perms) = s

some_bound-given :
    (test : Permission → Bool) (policy : SecurityPolicy) (e : PolicyEngine) (agent : String)
    → IsServing policy e
    → some_bound test e agent e.policy ≡ some_given test policy agent
some_bound-given test policy e agent s =
    ap (some_bound test e agent) s.0 ∙ each_binding policy.bindings
  where
    each_role :
        (names : List String)
        → any (λ (n : String). some_cached test (get n e.role_cache)) names
          ≡ any (λ (n : String). some_cached test (resolved policy n)) names
    each_role [] = refl
    each_role (n ∷ names) = rw (s.1 n, each_role names) refl

    each_binding :
        (bs : List RoleBinding)
        → any
            (λ (b : RoleBinding).
              binding_matches b agent
              && any (λ (n : String). some_cached test (get n e.role_cache)) b.roles)
            bs
          ≡ any
              (λ (b : RoleBinding).
                binding_matches b agent
                && any (λ (n : String). some_cached test (resolved policy n)) b.roles)
              bs
    each_binding [] = refl
    each_binding (b ∷ bs) = rw (each_role b.roles, each_binding bs) refl

-- Once a policy is set, and after any calls behind that that add no built-in role, an agent is allowed
-- an action exactly where a role that a matching binding of the policy gives it grants the action, itself
-- or by what it inherits, and none of these roles denies it, the roles that do not resolve left out.
-- The policy is the one that was set last, with the bindings added since; what the engine caches on the
-- way, and in which order it walks the roles, does not show.
pub check_permission-decision :
    (h : HashOrder) (lower : String → String) (policy : SecurityPolicy) (calls : List Call)
    (start : PolicyEngine) (agent resource action : String) (r : Resource)
    → any is_builtin calls ≡ false
    → parse resource ≡ ok r
    → let e = performs h lower (setting policy ∷ calls) start in
      (check_permission lower e agent resource action).1
      ≡ decision (policy_at policy calls) agent r (from_str lower action)
unfolding set_policy
check_permission-decision h lower policy calls start agent resource action r n p =
    let first = set_policy h policy start in
    let e = performs h lower calls first in
    let s =
      performs-IsServing h lower calls policy first n (refl, set_policy-resolved h policy start) in
    let a = from_str lower action in
    check_permission-cached_decision h lower calls first agent resource action r n
      (nothing_cached first refl) p
    ∙ rw
        (
          some_bound-given (is_grant r a) (policy_at policy calls) e agent s,
          some_bound-given (is_denial r a) (policy_at policy calls) e agent s,
        )
        refl
