-- ===== src/Base/Table.antt =====
-- `HashMap<u64, V>` as an association list.
use Prim.Native.Nat.{ℕ}
use mathlib.Core.Path.{◌≡◌, refl}
use mathlib.Core.Option.{Option, none, some}
use mathlib.Core.List.{List, [], ◌∷◌}
use native.Mathlib.Omega.{arith}
use fipa_wasm.Base.Tests.{if◌then◌else◌, ◌==◌}

abbrev pub Table {ℓ} : Type ℓ → Type ℓ
Table V = List (ℕ × V)

module _ {ℓ} {V : Type ℓ} where
  unfoldable pub find : ℕ → Table V → Option V
  find k [] = none
  find k ((j, v) ∷ m) = if j == k then some v else find k m

  pub put : ℕ → V → Table V → Table V
  put k v [] = (k, v) ∷ []
  put k v ((j, w) ∷ m) = if j == k then (k, v) ∷ m else (j, w) ∷ put k v m

  pub take_out : ℕ → Table V → Table V
  take_out k [] = []
  take_out k ((j, v) ∷ m) = if j == k then take_out k m else (j, v) ∷ take_out k m

  pub find-put :
      (k j : ℕ) (v : V) (m : Table V) → find j (put k v m) ≡ (if k == j then some v else find j m)
  unfolding find put
  find-put k j v [] = refl
  find-put k j v ((i, w) ∷ m) = ground (arith, find-put k j v m)

  pub find-take_out :
      (k j : ℕ) (m : Table V) → find j (take_out k m) ≡ (if k == j then none else find j m)
  unfolding find take_out
  find-take_out k j [] = ground arith
  find-take_out k j ((i, w) ∷ m) = ground (arith, find-take_out k j m)
