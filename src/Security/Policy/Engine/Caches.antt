-- ===== src/Security/Policy/Engine/Caches.antt =====
-- What the two caches of a `PolicyEngine` hold, and what it decides by them.
use fipa_wasm.Base.{
  String, List, [], ◌∷◌, ◌≡◌, ◌≢◌, refl, sym, ap, ◌∙◌, Option, none, some, Bool, true, false, not,
  ◌&&◌, ◌||◌, any, any-append, arith, if◌then◌else◌, eq_iff, ◌=s=◌,
}
use fipa_wasm.Base.Result.{ok}
use fipa_wasm.Base.Dict.{Dict, HashOrder, get, get-insert}
use fipa_wasm.Security.Permissions.{
  Resource, Action, Permission, PermissionSet, new_set, check, is_denial, is_grant, parse, from_str,
}
use fipa_wasm.Security.Policy.{Role, RoleBinding, SecurityPolicy, binding_matches}
use fipa_wasm.Security.Policy.Engine.{
  PolicyEngine, set_policy, merge_cached, add_roles, add_if, add_bindings, bound_permissions,
  cached_or, get_agent_permissions, check_permission, add_builtin_role, bind,
}

-- What is cached for an agent is what would be computed for it.
abbrev pub IsCoherent : PolicyEngine → Type 0
IsCoherent e =
    (agent : String) (perms : PermissionSet)
    → get agent e.agent_cache ≡ some perms
    → perms ≡ bound_permissions e.policy e.role_cache agent

-- The calls of the engine that change it.
pub data Call : Type 0 where
  setting : SecurityPolicy → Call
  binding : RoleBinding → Call
  builtin : Role → Call
  asking : String → String → String → Call

abbrev pub is_builtin : Call → Bool
is_builtin (builtin role) = true
is_builtin (setting policy) = false
is_builtin (binding b) = false
is_builtin (asking agent resource action) = false

abbrev pub perform : HashOrder → (String → String) → Call → PolicyEngine → PolicyEngine
perform h lower (setting policy) e = set_policy h policy e
perform h lower (binding b) e = bind b e
perform h lower (builtin role) e = add_builtin_role role e
perform h lower (asking agent resource action) e =
    (check_permission lower e agent resource action).0

-- Some permission of a role that is bound to the agent passes the test.
abbrev pub some_cached : (Permission → Bool) → Option PermissionSet → Bool
some_cached test none = false
some_cached test (some perms) = any test perms.permissions

abbrev pub some_bound : (Permission → Bool) → PolicyEngine → String → Option SecurityPolicy → Bool
some_bound test e agent none = false
some_bound test e agent (some policy) =
    any
      (λ (b : RoleBinding).
        binding_matches b agent
        && any (λ (n : String). some_cached test (get n e.role_cache)) b.roles)
      policy.bindings

any-merge_cached :
    (test : Permission → Bool) (perms : PermissionSet) (o : Option PermissionSet)
    → any test (merge_cached perms o).permissions ≡ any test perms.permissions || some_cached test o
any-merge_cached test perms none = ground arith
any-merge_cached test perms (some ps) = any-append test perms.permissions ps.permissions

any-add_roles :
    (test : Permission → Bool) (cache : Dict PermissionSet) (names : List String)
    (perms : PermissionSet)
    → any test (add_roles cache names perms).permissions
      ≡ any test perms.permissions || any (λ (n : String). some_cached test (get n cache)) names
unfolding add_roles
any-add_roles test cache [] perms = ground arith
any-add_roles test cache (n ∷ names) perms = ground (
  arith,
  any-add_roles test cache names (merge_cached perms (get n cache)),
  any-merge_cached test perms (get n cache),
)

any-add_if :
    (test : Permission → Bool) (hit : Bool) (cache : Dict PermissionSet) (names : List String)
    (perms : PermissionSet)
    → any test (add_if hit cache names perms).permissions
      ≡ any test perms.permissions
        || hit && any (λ (n : String). some_cached test (get n cache)) names
unfolding add_if
any-add_if test true cache names perms = any-add_roles test cache names perms
any-add_if test false cache names perms = ground arith

any-add_bindings :
    (test : Permission → Bool) (cache : Dict PermissionSet) (bs : List RoleBinding) (agent : String)
    (perms : PermissionSet)
    → any test (add_bindings cache bs agent perms).permissions
      ≡ any test perms.permissions
        || any
            (λ (b : RoleBinding).
              binding_matches b agent
              && any (λ (n : String). some_cached test (get n cache)) b.roles)
            bs
unfolding add_bindings
any-add_bindings test cache [] agent perms = ground arith
any-add_bindings test cache (b ∷ bs) agent perms =
    let next = add_if (binding_matches b agent) cache b.roles perms in
    rw
      (
        any-add_bindings test cache bs agent next,
        any-add_if test (binding_matches b agent) cache b.roles perms,
      )
      (regroup (any test perms.permissions)
        (binding_matches b agent && any (λ (n : String). some_cached test (get n cache)) b.roles)
        (any
          (λ (x : RoleBinding).
            binding_matches x agent && any (λ (n : String). some_cached test (get n cache)) x.roles)
          bs))
  where
    regroup : (x y z : Bool) → x || y || z ≡ x || (y || z)
    regroup x y z = ground arith

any_of_bound :
    (test : Permission → Bool) (e : PolicyEngine) (agent : String) (o : Option SecurityPolicy)
    → any test (bound_permissions o e.role_cache agent).permissions ≡ some_bound test e agent o
any_of_bound test e agent none = refl
any_of_bound test e agent (some policy) =
    any-add_bindings test e.role_cache policy.bindings agent new_set

-- What an agent is given is what is bound to it, whether it is cached or not.
asked_permissions :
    (e : PolicyEngine) (agent : String) (o : Option PermissionSet)
    → IsCoherent e
    → get agent e.agent_cache ≡ o
    → ((cached_or e agent o).1 ≡ bound_permissions e.policy e.role_cache agent)
      × IsCoherent (cached_or e agent o).0
asked_permissions e agent (some perms) h g = (h agent perms g, h)
asked_permissions e agent none h g = (refl, kept)
  where
    perms' : PermissionSet
    perms' = bound_permissions e.policy e.role_cache agent

    read :
        (hit : Bool) (a : String) (perms : PermissionSet)
        → (agent =s= a) ≡ hit
        → (if hit then some perms' else get a e.agent_cache) ≡ some perms
        → perms ≡ bound_permissions e.policy e.role_cache a
    read true a perms same q =
        (cc) ∙ ap (bound_permissions e.policy e.role_cache) ((eq_iff agent a).0 same)
    read false a perms other q = h a perms q

    kept : IsCoherent (cached_or e agent none).0
    kept a perms f =
        read (agent =s= a) a perms refl (sym (get-insert agent a perms' e.agent_cache) ∙ f)

abbrev pub performs : HashOrder → (String → String) → List Call → PolicyEngine → PolicyEngine
performs h lower [] e = e
performs h lower (call ∷ calls) e = performs h lower calls (perform h lower call e)

pub nothing_cached : (e : PolicyEngine) → e.agent_cache ≡ [] → IsCoherent e
unfolding get
nothing_cached e empty agent perms f = absurd (none_there (ap (get agent) (sym empty) ∙ f))
  where
    none_there : get {V = PermissionSet} agent [] ≢ some perms
    none_there q = cc

perform-IsCoherent :
    (h : HashOrder) (lower : String → String) (call : Call) (e : PolicyEngine)
    → is_builtin call ≡ false
    → IsCoherent e
    → IsCoherent (perform h lower call e)
unfolding set_policy bind check_permission get_agent_permissions
perform-IsCoherent h lower (setting policy) e n c = nothing_cached (set_policy h policy e) refl
perform-IsCoherent h lower (binding b) e n c = nothing_cached (bind b e) refl
perform-IsCoherent h lower (asking agent resource action) e n c =
    (asked_permissions e agent (get agent e.agent_cache) c refl).1
perform-IsCoherent h lower (builtin role) e n c = absurd (different n)
  where
    different : ¬ (◌≡◌ {A = Bool} true false)
    different q = cc

performs-IsCoherent :
    (h : HashOrder) (lower : String → String) (calls : List Call) (e : PolicyEngine)
    → any is_builtin calls ≡ false
    → IsCoherent e
    → IsCoherent (performs h lower calls e)
performs-IsCoherent h lower [] e n c = c
performs-IsCoherent h lower (call ∷ calls) e n c =
    performs-IsCoherent h lower calls (perform h lower call e) (ground arith)
      (perform-IsCoherent h lower call e (ground arith) c)

-- The decision that the bindings and the cached roles mean.
abbrev pub cached_decision : PolicyEngine → String → Resource → Action → Bool
cached_decision e agent resource action =
    some_bound (is_grant resource action) e agent e.policy
    && not (some_bound (is_denial resource action) e agent e.policy)

-- After any calls that add no built-in role, made where the cached permissions are what would be
-- computed, an agent is allowed an action exactly where a cached role that a matching binding gives it
-- grants the action and none of these roles denies it.
pub check_permission-cached_decision :
    (h : HashOrder) (lower : String → String) (calls : List Call) (start : PolicyEngine)
    (agent resource action : String) (r : Resource)
    → any is_builtin calls ≡ false
    → IsCoherent start
    → parse resource ≡ ok r
    → let e = performs h lower calls start in
      (check_permission lower e agent resource action).1
      ≡ cached_decision e agent r (from_str lower action)
unfolding check_permission get_agent_permissions check
check_permission-cached_decision h lower calls start agent resource action r n c p =
    let e = performs h lower calls start in
    let asked =
      asked_permissions e agent (get agent e.agent_cache)
        (performs-IsCoherent h lower calls start n c) refl in
    let a = from_str lower action in
    rw
      (
        p,
        asked.0,
        any_of_bound (is_denial r a) e agent e.policy,
        any_of_bound (is_grant r a) e agent e.policy,
      )
      (decided (some_bound (is_denial r a) e agent e.policy)
        (some_bound (is_grant r a) e agent e.policy))
  where
    decided : (d g : Bool) → (if d then false else g) ≡ g && not d
    decided d g = ground arith
