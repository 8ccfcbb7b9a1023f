-- ===== src/Security/Permissions/Decisions.antt =====
-- What a set of permissions decides.
use mathlib.Core.List.{Permᴰ}
use mathlib.Core.Logic.{∥∥₁_elim}
use fipa_wasm.Base.{
  ◌≡◌, refl, ◌∙◌, List, [], ◌∷◌, Option, none, some, Bool, false, not, ◌&&◌, ◌||◌, any,
  if◌then◌else◌, arith, is_some, any-append, Perm,
}
use fipa_wasm.Security.Permissions.{
  Resource, Action, Permission, PermissionSet, check, merge, is_denial, is_grant, find, answer,
  detailed_check,
}

any-permᴰ {ℓ} :
    {A : Type ℓ} (test : A → Bool) {xs ys : List A} → Permᴰ xs ys → any test xs ≡ any test ys
any-permᴰ test Permᴰ.nil = refl
any-permᴰ test (Permᴰ.cons e p) = rw (e, any-permᴰ test p) refl
any-permᴰ test (Permᴰ.swap {a = a} {b = b} {a' = a'} {b' = b'} {l = l} e e') =
    rw (e, e') (swapped (test b') (test a') (any test l))
  where
    swapped : (x y z : Bool) → x || (y || z) ≡ y || (x || z)
    swapped x y z = ground arith
any-permᴰ test (Permᴰ.trans p q) = any-permᴰ test p ∙ any-permᴰ test q

any_of_perm {ℓ} :
    {A : Type ℓ} (test : A → Bool) {xs ys : List A} → Perm xs ys → any test xs ≡ any test ys
any_of_perm test {xs} {ys} p =
    ∥∥₁_elim p (Bool_set (any test xs) (any test ys)) (λ d. any-permᴰ test d)
  where
    Bool_set : IsSet Bool
    Bool_set = hlevel

find-any : (test : Permission → Bool) (ps : List Permission) → is_some (find test ps) ≡ any test ps
find-any test [] = refl
find-any test (p ∷ ps) = ground (arith, find-any test ps)

decides :
    (resource : Resource) (action : Action) (d g : Option Permission)
    → (answer resource action d g).granted ≡ not (is_some d) && is_some g
unfolding answer
decides resource action (some p) g = refl
decides resource action none (some p) = refl
decides resource action none none = refl

-- Access to the union of two sets of permissions, held in any order, is given by the one check as by the
-- other: where a permission of one of the sets grants it and none of either denies it.
pub check-merge :
    (s t u : PermissionSet) (resource : Resource) (action : Action)
    → Perm u.permissions (merge s t).permissions
    → let granted = any (is_grant resource action) in
      let denied = any (is_denial resource action) in
      let allowed =
        (granted s.permissions || granted t.permissions)
        && not (denied s.permissions)
        && not (denied t.permissions) in
      (check u resource action ≡ allowed) × ((detailed_check u resource action).granted ≡ allowed)
unfolding check detailed_check
check-merge s t u resource action p =
    let d =
      any_of_perm (is_denial resource action) p
      ∙ any-append (is_denial resource action) s.permissions t.permissions in
    let g =
      any_of_perm (is_grant resource action) p
      ∙ any-append (is_grant resource action) s.permissions t.permissions in
    (
      rw (d, g)
          (decided (any (is_denial resource action) s.permissions)
            (any (is_denial resource action) t.permissions)
            (any (is_grant resource action) s.permissions)
            (any (is_grant resource action) t.permissions)),
      rw
          (
            decides resource action (find (is_denial resource action) u.permissions)
                (find (is_grant resource action) u.permissions),
            find-any (is_denial resource action) u.permissions,
            find-any (is_grant resource action) u.permissions,
            d,
            g,
          )
          (decided' (any (is_denial resource action) s.permissions)
            (any (is_denial resource action) t.permissions)
            (any (is_grant resource action) s.permissions)
            (any (is_grant resource action) t.permissions)),
    )
  where
    decided :
        (d d' g g' : Bool) → (if d || d' then false else g || g') ≡ (g || g') && not d && not d'
    decided d d' g g' = ground arith

    decided' : (d d' g g' : Bool) → not (d || d') && (g || g') ≡ (g || g') && not d && not d'
    decided' d d' g g' = ground arith
