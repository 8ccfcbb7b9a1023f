-- ===== src/Base/Trim.antt =====
-- Texts as lines and parts, and without what surrounds them.
use Prim.Native.Nat.{ℕ, zero, suc}
use Prim.Native.Char.{Char, code}
use Prim.Native.String.{String}
use mathlib.Core.Bool.{Bool, true, false, ◌&&◌, ◌||◌}
use mathlib.Core.Option.{Option, none, some}
use mathlib.Core.List.{List, [], ◌∷◌}
use fipa_wasm.Base.Tests.{if◌then◌else◌, ◌==◌, leb}

-- The characters that Unicode calls `White_Space`.
abbrev pub is_whitespace : ℕ → Bool
is_whitespace n =
    (leb 9 n && leb n 13)
    || n == 32
    || n == 133
    || n == 160
    || n == 5760
    || (leb 8192 n && leb n 8202)
    || n == 8232
    || n == 8233
    || n == 8239
    || n == 8287
    || n == 12288

abbrev pub is_nil : String → Bool
is_nil String.[] = true
is_nil (String.◌∷◌ c s) = false

-- `trim_start_matches`, `trim_end_matches` and `trim_matches` of a test on characters.
unfoldable pub trim_start_by : (ℕ → Bool) → String → String
trim_start_by p String.[] = String.[]
trim_start_by p (String.◌∷◌ c s) = if p (code c) then trim_start_by p s else String.◌∷◌ c s

unfoldable pub trim_end_by : (ℕ → Bool) → String → String
trim_end_by p String.[] = String.[]
trim_end_by p (String.◌∷◌ c s) =
    let rest = trim_end_by p s in if is_nil rest && p (code c) then String.[] else String.◌∷◌ c rest

unfoldable pub trim_matches : (ℕ → Bool) → String → String
unfolding trim_start_by trim_end_by
trim_matches p s = trim_end_by p (trim_start_by p s)

unfoldable pub trim : String → String
unfolding trim_matches
trim s = trim_matches is_whitespace s

strip_prefix : String → String → Option String
strip_prefix String.[] s = some s
strip_prefix (String.◌∷◌ c p) String.[] = none
strip_prefix (String.◌∷◌ c p) (String.◌∷◌ d s) = if code c == code d then strip_prefix p s else none

abbrev pub size : String → ℕ
size String.[] = 0
size (String.◌∷◌ c s) = suc (size s)

-- `trim_start_matches` of a text, which is taken off as often as it stands there: with one round for
-- each character, since a prefix that is not empty makes the text shorter.
strip_all : ℕ → String → String → String
unfolding strip_prefix
strip_all zero p s = s
strip_all (suc n) p s = elim (strip_prefix p s) [ none ↦ s | some rest ↦ strip_all n p rest ]

unfoldable pub trim_start_matches : String → String → String
unfolding strip_all
trim_start_matches p s = strip_all (size s) p s

abbrev pub join_first : Char → List String → List String
join_first c [] = String.◌∷◌ c String.[] ∷ []
join_first c (s ∷ ss) = String.◌∷◌ c s ∷ ss

-- `split`: one part more than there are separators.
unfoldable pub split : ℕ → String → List String
split n String.[] = String.[] ∷ []
split n (String.◌∷◌ c s) =
    let parts = split n s in if code c == n then String.[] ∷ parts else join_first c parts
