-- ===== src/Base/Decimal.antt =====
-- The decimal digits of a number, which `format!("{}", n)` writes.
use Prim.Native.Nat.{ℕ, zero, suc, ◌+◌, ◌-◌, ◌*◌, ◌/◌, ◌%◌, ◌<◌, ◌≤◌}
use Prim.Native.Char.{code}
use Prim.Native.String.{String, ◌++◌ as ◌<>◌}
use text.Mathlib.TextLemmas.{nil-append, cons-append}
use mathlib.Core.Path.{◌≡◌, refl, sym, ap, ◌∙◌}
use mathlib.Core.Logic.{inl, inr}
use native.Mathlib.Omega.{arith}
use fipa_wasm.Base.Tests.{if◌then◌else◌, ltb, Bool-cases}

digit : ℕ → String
digit zero = "0"
digit (suc zero) = "1"
digit (suc (suc zero)) = "2"
digit (suc (suc (suc zero))) = "3"
digit (suc (suc (suc (suc zero)))) = "4"
digit (suc (suc (suc (suc (suc zero))))) = "5"
digit (suc (suc (suc (suc (suc (suc zero)))))) = "6"
digit (suc (suc (suc (suc (suc (suc (suc zero))))))) = "7"
digit (suc (suc (suc (suc (suc (suc (suc (suc zero)))))))) = "8"
digit n = "9"

-- With fuel for the divisions by ten.
digits : ℕ → ℕ → String
unfolding digit
digits zero n = ""
digits (suc fuel) n =
    let front = digits fuel (n / 10) in if ltb n 10 then digit n else front <> digit (n % 10)

pub decimal : ℕ → String
unfolding digits
decimal n = digits (suc n) n

-- What a text of digits stands for, behind what is read already.
value : ℕ → String → ℕ
value acc String.[] = acc
value acc (String.◌∷◌ c s) = value (acc * 10 + (code c - 48)) s

value-append : (acc : ℕ) (s t : String) → value acc (s <> t) ≡ value (value acc s) t
unfolding value
value-append acc String.[] t = ap (value acc) (nil-append t)
value-append acc (String.◌∷◌ c s) t =
    ap (value acc) (cons-append c s t) ∙ value-append (acc * 10 + (code c - 48)) s t

value-digit : (acc n : ℕ) → n < 10 → value acc (digit n) ≡ acc * 10 + n
unfolding value digit
value-digit acc zero h = refl
value-digit acc (suc zero) h = refl
value-digit acc (suc (suc zero)) h = refl
value-digit acc (suc (suc (suc zero))) h = refl
value-digit acc (suc (suc (suc (suc zero)))) h = refl
value-digit acc (suc (suc (suc (suc (suc zero))))) h = refl
value-digit acc (suc (suc (suc (suc (suc (suc zero)))))) h = refl
value-digit acc (suc (suc (suc (suc (suc (suc (suc zero))))))) h = refl
value-digit acc (suc (suc (suc (suc (suc (suc (suc (suc zero)))))))) h = refl
value-digit acc (suc (suc (suc (suc (suc (suc (suc (suc (suc zero))))))))) h = refl
value-digit acc (suc (suc (suc (suc (suc (suc (suc (suc (suc (suc n)))))))))) h =
    absurd (omega (arith, h))

value-digits : (fuel n : ℕ) → n < fuel → value 0 (digits fuel n) ≡ n
unfolding digits
value-digits zero n h = absurd (omega (arith, h))
value-digits (suc fuel) n h = elim (Bool-cases (ltb n 10)) [
  | inl e ↦ rw e (value-digit 0 n (ground arith) ∙ (omega arith))
  | inr e ↦ rw e (
      value-append 0 (digits fuel (n / 10)) (digit (n % 10))
      ∙ value-digit (value 0 (digits fuel (n / 10))) (n % 10) (omega arith)
      ∙ rw (value-digits fuel (n / 10) (smaller (ground arith))) (omega arith))
]
  where
    smaller : 10 ≤ n → n / 10 < fuel
    smaller le = omega (arith, h, le)

-- Different numbers are written differently.
pub decimal-injective : (m n : ℕ) → decimal m ≡ decimal n → m ≡ n
unfolding decimal
decimal-injective m n e =
    sym (value-digits (suc m) m (omega arith))
    ∙ ap (value 0) e
    ∙ value-digits (suc n) n (omega arith)
