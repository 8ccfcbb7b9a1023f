-- ===== src/Float.antt =====
-- `f64`, of which the auctions and the recruiter use the operations below. The type is a parameter
-- of their models. What IEEE 754 promises of it, where a theorem relies on it, is `IsIeee`.
use Prim.Native.Nat.{Ordering}
use fipa_wasm.Base.{ℕ, ◌≡◌, Bool, true, false, Option, none, some, List}

pub record Float : Type 1 where
  pub F64 : Type 0
  pub zero : F64
  pub add : F64 → F64 → F64
  pub sub : F64 → F64 → F64
  pub lt : F64 → F64 → Bool
  pub le : F64 → F64 → Bool
  -- the bytes of `format!("{}", x)`
  pub display : F64 → List ℕ

-- A value that is neither below nor above any other, as NaN is.
abbrev pub IsUnordered : (f : Float) → f.F64 → Type 0
IsUnordered f x = (y : f.F64) → (f.lt x y ≡ false) × (f.lt y x ≡ false)

pub record IsIeee (f : Float) : Type 0 where
  pub lt_irrefl : (a : f.F64) → f.lt a a ≡ false
  pub lt_trans : (a b c : f.F64) → f.lt a b ≡ true → f.lt b c ≡ true → f.lt a c ≡ true
  pub add-unordered : (a b : f.F64) → IsUnordered f a → IsUnordered f (f.add a b)

-- `f64::partial_cmp`
abbrev order_of : Bool → Bool → Option Ordering
order_of false false = none
order_of false true = some Ordering.gt
order_of true false = some Ordering.lt
order_of true true = some Ordering.eq

unfoldable pub partial_cmp : (f : Float) → f.F64 → f.F64 → Option Ordering
partial_cmp f a b = order_of (f.le a b) (f.le b a)
