-- ===== src/Security/Policy/Engine/Stale.antt =====
-- What an agent keeps of its permissions when built-in roles are added.
use fipa_wasm.Base.{
  String, List, [], ◌∷◌, ◌≡◌, ◌≢◌, refl, sym, ap, ◌∙◌, Option, none, some, Bool, true, false, any,
  arith, if◌then◌else◌, eq_iff, ◌=s=◌,
}
use fipa_wasm.Base.Dict.{HashOrder, get, get-insert}
use fipa_wasm.Security.Permissions.{PermissionSet}
use fipa_wasm.Security.Policy.Engine.{
  PolicyEngine, bound_permissions, cached_or, get_agent_permissions, check_permission,
  add_builtin_role,
}
use fipa_wasm.Security.Policy.Engine.Caches.{
  Call, setting, binding, builtin, asking, perform, performs,
}

-- A policy is set, or a binding is added.
abbrev pub is_clearing : Call → Bool
is_clearing (setting policy) = true
is_clearing (binding b) = true
is_clearing (builtin role) = false
is_clearing (asking agent resource action) = false

cached_or-keeps :
    (e : PolicyEngine) (agent other : String) (perms : PermissionSet) (o : Option PermissionSet)
    → get agent e.agent_cache ≡ some perms
    → get other e.agent_cache ≡ o
    → get agent (cached_or e other o).0.agent_cache ≡ some perms
cached_or-keeps e agent other perms (some ps) g f = g
cached_or-keeps e agent other perms none g f =
    get-insert other agent (bound_permissions e.policy e.role_cache other) e.agent_cache
    ∙ read (other =s= agent) refl
  where
    read :
        (hit : Bool)
        → (other =s= agent) ≡ hit
        → (if hit
            then some (bound_permissions e.policy e.role_cache other)
            else get agent e.agent_cache)
          ≡ some perms
    read true same = absurd (
        absent (sym f ∙ ap (λ (n : String). get n e.agent_cache) ((eq_iff other agent).0 same) ∙ g))
      where
        absent : ◌≢◌ {A = Option PermissionSet} none (some perms)
        absent q = cc
    read false n = g

perform-keeps :
    (h : HashOrder) (lower : String → String) (call : Call) (e : PolicyEngine) (agent : String)
    (perms : PermissionSet)
    → is_clearing call ≡ false
    → get agent e.agent_cache ≡ some perms
    → get agent (perform h lower call e).agent_cache ≡ some perms
unfolding check_permission get_agent_permissions add_builtin_role
perform-keeps h lower (setting policy) e agent perms n g = absurd (cc (n))
perform-keeps h lower (binding b) e agent perms n g = absurd (cc (n))
perform-keeps h lower (builtin role) e agent perms n g = g
perform-keeps h lower (asking other resource action) e agent perms n g =
    cached_or-keeps e agent other perms (get other e.agent_cache) g refl

performs-keeps :
    (h : HashOrder) (lower : String → String) (calls : List Call) (e : PolicyEngine)
    (agent : String) (perms : PermissionSet)
    → any is_clearing calls ≡ false
    → get agent e.agent_cache ≡ some perms
    → get agent (performs h lower calls e).agent_cache ≡ some perms
performs-keeps h lower [] e agent perms n g = g
performs-keeps h lower (call ∷ calls) e agent perms n g =
    performs-keeps h lower calls (perform h lower call e) agent perms (ground arith)
      (perform-keeps h lower call e agent perms (ground arith) g)

asked-cached :
    (e : PolicyEngine) (agent : String) (o : Option PermissionSet)
    → get agent e.agent_cache ≡ o
    → let asked = cached_or e agent o in get agent asked.0.agent_cache ≡ some asked.1
asked-cached e agent (some perms) g = g
asked-cached e agent none g =
    get-insert agent agent (bound_permissions e.policy e.role_cache agent) e.agent_cache
    ∙ rw ((eq_iff agent agent).1 refl)

-- Once an agent was asked about, it keeps the permissions that it then had through any calls that
-- neither set a policy nor add a binding, whatever built-in roles they add, also under the name of a
-- role that is bound to the agent.
pub add_builtin_role-get_agent_permissions :
    (h : HashOrder) (lower : String → String) (calls : List Call) (e : PolicyEngine)
    (agent : String)
    → any is_clearing calls ≡ false
    → let asked = get_agent_permissions e agent in
      (get_agent_permissions (performs h lower calls asked.0) agent).1 ≡ asked.1
unfolding get_agent_permissions
add_builtin_role-get_agent_permissions h lower calls e agent n =
    let asked = cached_or e agent (get agent e.agent_cache) in
    let kept =
      performs-keeps h lower calls asked.0 agent asked.1 n
        (asked-cached e agent (get agent e.agent_cache) refl) in
    rw kept refl
