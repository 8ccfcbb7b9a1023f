-- ===== src/Security/Permissions/Patterns.antt =====
-- How resources are written, and what a pattern stands for.
use Prim.Native.Char.{Char, code}
use text.Mathlib.TextLemmas.{nil-append, cons-append}
use fipa_wasm.Base.{
  ℕ, String, ◌≡◌, ◌≢◌, refl, sym, ap, ◌∙◌, Option, some, true, false, ◌↔◌, ◌<>◌, ◌=s=◌, eq_iff,
  arith, inl, inr, Bool-cases,
}
use fipa_wasm.Base.Result.{ok}
use fipa_wasm.Base.Text.{
  has_char, remove_char, first_is, last_is, begins_with, split_once, remove_char-last,
  has_char-last, last_is-last, begins_with-append, begins_with-rest, split_once-append,
}
use fipa_wasm.Security.Permissions.{Resource, parse, resource_of, to_string, name_matches}

parted :
    (n : ℕ) (c : Char) (s t : String)
    → has_char n s ≡ false
    → code c ≡ n
    → split_once n (s <> String.◌∷◌ c String.[] <> t) ≡ (s, some t)
parted n c s t h e = rw (cons-append c String.[] t, nil-append t) (split_once-append n c s t h e)

-- A resource that was written is read back, unless its type has a slash.
pub parse-to_string :
    (r : Resource) → has_char b'/' r.resource_type ≡ false → parse (to_string r) ≡ ok r
unfolding parse to_string resource_of
parse-to_string r h =
    ap (λ (x : String × Option String). ok (resource_of x))
      (parted 47 _ r.resource_type r.name h refl)

first_is-append :
    (n : ℕ) (p s : String) → p ≢ "" → has_char n p ≡ false → first_is n (p <> s) ≡ false
unfolding first_is has_char
first_is-append n String.[] s ne h = absurd (ne refl)
first_is-append n (String.◌∷◌ c p) s ne h = rw (cons-append c p s) (ground arith)

star : first_is b'*' "*" ≢ false
unfolding first_is
star h = cc

-- What a pattern computes to, from what is known of its stars.
starred :
    (pattern name part : String)
    → (pattern =s= "*") ≡ false
    → has_char b'*' pattern ≡ true
    → first_is b'*' pattern ≡ false
    → last_is b'*' pattern ≡ true
    → remove_char b'*' pattern ≡ part
    → name_matches pattern name ≡ begins_with part name
unfolding name_matches
starred pattern name part a b c d e = rw (a, b, c, d, e) refl

prefix_lem :
    (p name : String)
    → p ≢ ""
    → has_char b'*' p ≡ false
    → name_matches (p <> "*") name ≡ begins_with p name
prefix_lem p name ne h =
    starred (p <> "*") name p (longer (p <> "*") (first_is-append 42 p "*" ne h))
      (has_char-last 42 p _ refl) (first_is-append 42 p "*" ne h) (last_is-last 42 p _ refl)
      (remove_char-last 42 p _ h refl)
  where
    longer : (s : String) → first_is 42 s ≡ false → (s =s= "*") ≡ false
    longer s f = elim (Bool-cases (s =s= "*")) [
      | inl e ↦ absurd (star (ap (first_is 42) (sym ((eq_iff s "*").0 e)) ∙ f))
      | inr n ↦ n
    ]

-- A pattern that ends with its only star stands for the names that begin with what is before the star.
pub name_matches-begins_with :
    (p name : String)
    → p ≢ ""
    → has_char b'*' p ≡ false
    → (name_matches (p <> "*") name ≡ true) ↔ ((rest : String) × (name ≡ p <> rest))
name_matches-begins_with p name ne h = (
  λ (m : name_matches (p <> "*") name ≡ true).
      begins_with-rest p name (sym (prefix_lem p name ne h) ∙ m),
  λ (r : (rest : String) × (name ≡ p <> rest)).
      prefix_lem p name ne h ∙ ap (begins_with p) r.1 ∙ begins_with-append p r.0,
)
