-- ===== src/Base/Text.antt =====
-- Texts as the program takes them apart: by characters, which a number names by its code.
use Prim.Native.Nat.{ℕ}
use Prim.Native.Char.{Char, code}
use Prim.Native.String.{String, ◌++◌ as ◌<>◌}
use text.Mathlib.Text.{◌==◌ as ◌=s=◌}
use text.Mathlib.TextEquality.{Char-path}
use text.Mathlib.TextLemmas.{nil-append, cons-append}
use mathlib.Core.Path.{◌≡◌, refl, sym, ap, ◌∙◌}
use mathlib.Core.Bool.{Bool, true, false, ◌&&◌, ◌||◌}
use mathlib.Core.Option.{Option, none, some}
use native.Mathlib.Omega.{arith}
use fipa_wasm.Base.Tests.{if◌then◌else◌, ◌==◌}

unfoldable pub has_char : ℕ → String → Bool
has_char n String.[] = false
has_char n (String.◌∷◌ c s) = code c == n || has_char n s

-- `replace` of one character by nothing.
unfoldable pub remove_char : ℕ → String → String
remove_char n String.[] = String.[]
remove_char n (String.◌∷◌ c s) =
    if code c == n then remove_char n s else String.◌∷◌ c (remove_char n s)

-- `starts_with` and `ends_with` of one character.
unfoldable pub first_is : ℕ → String → Bool
first_is n String.[] = false
first_is n (String.◌∷◌ c s) = code c == n

unfoldable pub last_is : ℕ → String → Bool
last_is n String.[] = false
last_is n (String.◌∷◌ c String.[]) = code c == n
last_is n (String.◌∷◌ c (String.◌∷◌ d s)) = last_is n (String.◌∷◌ d s)

-- `starts_with`, `contains` and `ends_with` of a text, which comes first.
unfoldable pub begins_with : String → String → Bool
begins_with String.[] s = true
begins_with (String.◌∷◌ c p) String.[] = false
begins_with (String.◌∷◌ c p) (String.◌∷◌ d s) = code c == code d && begins_with p s

abbrev pub contains : String → String → Bool
unfolding begins_with
contains p String.[] = begins_with p String.[]
contains p (String.◌∷◌ c s) = begins_with p (String.◌∷◌ c s) || contains p s

abbrev pub ends_with : String → String → Bool
ends_with p String.[] = p =s= String.[]
ends_with p (String.◌∷◌ c s) = p =s= String.◌∷◌ c s || ends_with p s

-- `splitn(2, n)`: what stands before the first such character, and behind it if there is one.
unfoldable pub split_once : ℕ → String → String × Option String
split_once n String.[] = (String.[], none)
split_once n (String.◌∷◌ c s) =
    let r = split_once n s in if code c == n then (String.[], some s) else (String.◌∷◌ c r.0, r.1)

-- A text without the character, and a last one.
pub remove_char-absent : (n : ℕ) (s : String) → has_char n s ≡ false → remove_char n s ≡ s
unfolding has_char remove_char
remove_char-absent n String.[] h = refl
remove_char-absent n (String.◌∷◌ c s) h = ground (arith, remove_char-absent n s)

pub remove_char-last :
    (n : ℕ) (s : String) (c : Char)
    → has_char n s ≡ false
    → code c ≡ n
    → remove_char n (s <> String.◌∷◌ c String.[]) ≡ s
unfolding has_char remove_char
remove_char-last n String.[] c h e = rw (nil-append (String.◌∷◌ c String.[])) (ground arith)
remove_char-last n (String.◌∷◌ d s) c h e =
    rw (cons-append d s (String.◌∷◌ c String.[])) (ground (arith, remove_char-last n s c))

pub has_char-last :
    (n : ℕ) (s : String) (c : Char) → code c ≡ n → has_char n (s <> String.◌∷◌ c String.[]) ≡ true
unfolding has_char
has_char-last n String.[] c e = rw (nil-append (String.◌∷◌ c String.[])) (ground arith)
has_char-last n (String.◌∷◌ d s) c e =
    rw (cons-append d s (String.◌∷◌ c String.[])) (ground (arith, has_char-last n s c))

pub last_is-last :
    (n : ℕ) (s : String) (c : Char) → code c ≡ n → last_is n (s <> String.◌∷◌ c String.[]) ≡ true
unfolding last_is
last_is-last n String.[] c e = rw (nil-append (String.◌∷◌ c String.[])) (ground arith)
last_is-last n (String.◌∷◌ d String.[]) c e =
    rw (cons-append d String.[] (String.◌∷◌ c String.[]), nil-append (String.◌∷◌ c String.[]))
      (ground arith)
last_is-last n (String.◌∷◌ d (String.◌∷◌ d' s)) c e =
    rw
      (
        cons-append d (String.◌∷◌ d' s) (String.◌∷◌ c String.[]),
        cons-append d' s (String.◌∷◌ c String.[]),
      )
      (last_is_step n d d' (s <> String.◌∷◌ c String.[])
        ∙ ap (last_is n) (sym (cons-append d' s (String.◌∷◌ c String.[])))
        ∙ last_is-last n (String.◌∷◌ d' s) c e)
  where
    last_is_step :
        (n : ℕ) (d d' : Char) (t : String)
        → last_is n (String.◌∷◌ d (String.◌∷◌ d' t)) ≡ last_is n (String.◌∷◌ d' t)
    last_is_step n d d' t = refl

-- `begins_with` says what it is named for.
pub begins_with-append : (p s : String) → begins_with p (p <> s) ≡ true
unfolding begins_with
begins_with-append String.[] s = refl
begins_with-append (String.◌∷◌ c p) s =
    rw (cons-append c p s) (ground (arith, begins_with-append p s))

pub begins_with-rest : (p s : String) → begins_with p s ≡ true → (rest : String) × (s ≡ p <> rest)
unfolding begins_with
begins_with-rest String.[] s h = (s, sym (nil-append s))
begins_with-rest (String.◌∷◌ c p) String.[] h = cc
begins_with-rest (String.◌∷◌ c p) (String.◌∷◌ d s) h =
    let tail = begins_with-rest p s (ground arith) in
    let same = Char-path c d (ground arith) in
    (
      tail.0,
      ap (String.◌∷◌ d) tail.1
          ∙ ap (λ (e : Char). String.◌∷◌ e (p <> tail.0)) (sym same)
          ∙ sym (cons-append c p tail.0),
    )

-- The first of several parts that a character separates is found again.
pub split_once-append :
    (n : ℕ) (c : Char) (s t : String)
    → has_char n s ≡ false
    → code c ≡ n
    → split_once n (s <> String.◌∷◌ c t) ≡ (s, some t)
unfolding has_char split_once
split_once-append n c String.[] t h e = rw (nil-append (String.◌∷◌ c t)) (ground arith)
split_once-append n c (String.◌∷◌ d s) t h e =
    rw (cons-append d s (String.◌∷◌ c t)) (ground (arith, split_once-append n c s t))
