-- ===== src/Protocol/Machine/Log.antt =====
-- A message history read as a log: the performatives in it, and its last entry.
use mathlib.Core.List.{map-append}
use fipa_wasm.Base.{◌≡◌, refl, List, [], ◌∷◌, ◌++◌, Option, none, some, map}
use fipa_wasm.Base.Result.{ok}
use fipa_wasm.Acl.{AclMessage, Performative, try_from}
use fipa_wasm.Protocol.{read_performative, try_from-read}

pub performatives : List AclMessage → List (Option Performative)
performatives log = map (λ (m : AclMessage). try_from m.performative) log

pub performatives-nil : performatives [] ≡ []
unfolding performatives
performatives-nil = refl

pub performatives-snoc :
    (log : List AclMessage) (msg : AclMessage) {perf : Performative}
    → read_performative msg ≡ ok perf
    → performatives (log ++ msg ∷ []) ≡ performatives log ++ some perf ∷ []
unfolding performatives
performatives-snoc log msg r = rw (map-append, try_from-read msg r)

module _ {ℓ} {A : Type ℓ} where
  unfoldable pub last? : List A → Option A
  last? [] = none
  last? (x ∷ []) = some x
  last? (x ∷ (y ∷ ys)) = last? (y ∷ ys)

  pub last?-snoc : (xs : List A) (x : A) → last? (xs ++ x ∷ []) ≡ some x
  unfolding last?
  last?-snoc [] x = refl
  last?-snoc (y ∷ []) x = refl
  last?-snoc (y ∷ (z ∷ zs)) x = last?-snoc (z ∷ zs) x

  pub last?-cons : (x : A) (xs : List A) → (y : A) × (last? (x ∷ xs) ≡ some y)
  unfolding last?
  last?-cons x [] = (x, refl)
  last?-cons x (y ∷ ys) = last?-cons y ys
