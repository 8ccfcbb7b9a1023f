-- ===== src/Base/Dict.antt =====
-- `HashMap<String, V>` as an association list, and the order in which it is walked.
use Prim.Native.String.{String}
use text.Mathlib.Text.{◌==◌}
use text.Mathlib.TextEquality.{eq_iff}
use mathlib.Core.Path.{◌≡◌, refl, sym, ap, ap₂, ◌∙◌, subst}
use mathlib.Core.Bool.{false≢true, Bool, false, ◌||◌}
use mathlib.Core.Logic.{inl, inr, ∥∥₁_elim}
use mathlib.Core.Option.{Option, none, some}
use mathlib.Core.List.{List, [], ◌∷◌, map, Perm, Permᴰ}
use mathlib.Core.List.Perm
use mathlib.Core.HLevel.{hedberg}
use native.Mathlib.Omega.{arith}
use Prim.Native.Nat.{◌≤◌}
use fipa_wasm.Base.Lists.{length}
use fipa_wasm.Base.Tests.{if◌then◌else◌, is_some, Bool-cases}

-- `HashMap` promises no order: a walk sees every entry once, in an order that the map chooses.
pub record HashOrder : Type 1 where
  pub order : (V : Type 0) → List (String × V) → List (String × V)
  pub order_perm : (V : Type 0) (m : List (String × V)) → Perm (order V m) m

-- The order of first insertion is one such order.
abbrev pub insertion_order : HashOrder
insertion_order = record { order = λ V m. m; order_perm = λ V m. Perm.refl m }

abbrev pub Dict {ℓ} : Type ℓ → Type ℓ
Dict V = List (String × V)

abbrev pub values : {V : Type 0} → HashOrder → Dict V → List V
values {V} h m = map (λ (e : String × V). e.1) (h.order V m)

String-discrete : Discrete String
String-discrete s t = elim (Bool-cases (s == t)) [
  | inl e ↦ yes ((eq_iff s t).0 e)
  | inr n ↦ no (λ p. absurd (false≢true (sym n ∙ (eq_iff s t).1 p)))
]

-- A permutation of a list of at most one entry is that list.
short {ℓ} : {A : Type ℓ} {l₁ l₂ : List A} → Permᴰ l₁ l₂ → length l₂ ≤ 1 → l₁ ≡ l₂
short Permᴰ.nil h = refl
short (Permᴰ.cons e p) h = ap₂ ◌∷◌ e (short p (omega arith))
short (Permᴰ.swap e e') h = absurd (omega arith)
short (Permᴰ.trans p q) h = short p (subst (λ l. length l ≤ 1) (sym (short q h)) h) ∙ short q h

-- So the order of a walk does not matter where the map has at most one entry.
pub values-short :
    {V : Type 0} (h : HashOrder) (m : Dict V)
    → IsSet V
    → length m ≤ 1
    → values h m ≡ map (λ (e : String × V). e.1) m
values-short {V} h m s l =
    ap (map (λ (e : String × V). e.1)) (∥∥₁_elim (h.order_perm V m) (all_sets _ _) (λ p. short p l))
  where
    all_sets : IsSet (List (String × V))
    all_sets = hlevel (s, hedberg String-discrete)

module _ {ℓ} {V : Type ℓ} where
  unfoldable pub get : String → Dict V → Option V
  get k [] = none
  get k ((j, v) ∷ m) = if j == k then some v else get k m

  unfoldable pub insert : String → V → Dict V → Dict V
  insert k v [] = (k, v) ∷ []
  insert k v ((j, w) ∷ m) = if j == k then (k, v) ∷ m else (j, w) ∷ insert k v m

  unfoldable pub remove : String → Dict V → Dict V
  remove k [] = []
  remove k ((j, v) ∷ m) = if j == k then remove k m else (j, v) ∷ remove k m

  unfoldable pub contains_key : String → Dict V → Bool
  contains_key k [] = false
  contains_key k ((j, v) ∷ m) = j == k || contains_key k m

  pub get-insert :
      (k j : String) (v : V) (m : Dict V)
      → get j (insert k v m) ≡ (if k == j then some v else get j m)
  unfolding get insert
  get-insert k j v [] = refl
  get-insert k j v ((i, w) ∷ m) =
      ground (arith, eq_iff k j, eq_iff i k, eq_iff i j, get-insert k j v m)

  pub contains_key-get : (k : String) (m : Dict V) → contains_key k m ≡ is_some (get k m)
  unfolding get contains_key
  contains_key-get k [] = refl
  contains_key-get k ((j, v) ∷ m) = elim (Bool-cases (j == k)) [
    | inl e ↦ rw e
    | inr n ↦ rw n (contains_key-get k m)
  ]

  pub get-remove :
      (k j : String) (m : Dict V) → get j (remove k m) ≡ (if k == j then none else get j m)
  unfolding get remove
  get-remove k j [] = ground arith
  get-remove k j ((i, w) ∷ m) = ground (arith, eq_iff k j, eq_iff i k, eq_iff i j, get-remove k j m)
