-- ===== src/Platform/Ams/Names.antt =====
-- The names that the platform makes up.
use text.Mathlib.TextLemmas.{append_cancel_left, append-nil, cons-append, nil≢cons}
use fipa_wasm.Base.{
  ℕ, zero, suc, ◌+◌, ◌^◌, ◌<◌, ◌≤◌, String, List, [], ◌∷◌, ◌++◌, map, ◌≡◌, ◌≢◌, refl, sym, ap, ◌∙◌,
  Option, some, Bool, true, false, not, ◌&&◌, any, length, ◌=s=◌, ◌<>◌, eq_iff, arith,
  if◌then◌else◌, ltb, ◌⊎◌, inl, inr, Bool-cases,
}
use fipa_wasm.Base.Decimal.{decimal, decimal-injective}
use fipa_wasm.Base.Dict.{Dict, contains_key}
use fipa_wasm.Platform.Ams.{
  Ams, AgentRegistration, is_name_available, is_reserved, numbered, signed, next_counter,
  first_available, fuel_of, generate_unique_name,
}

-- The names that are taken.
abbrev has : String → List String → Bool
has name names = any (λ (n : String). n =s= name) names

abbrev without : String → List String → List String
without name [] = []
without name (n ∷ names) = if n =s= name then without name names else n ∷ without name names

without-shorter : (name : String) (names : List String) → length (without name names) ≤ length names
without-shorter name [] = omega arith
without-shorter name (n ∷ names) = ground (arith, without-shorter name names)

without-has :
    (name : String) (names : List String)
    → has name names ≡ true
    → length (without name names) < length names
without-has name [] h = cc
without-has name (n ∷ names) h = ground (arith, without-has name names, without-shorter name names)

has-without :
    (name other : String) (names : List String)
    → name ≢ other
    → has other (without name names) ≡ has other names
has-without name other [] n = refl
has-without name other (m ∷ names) n =
    ground (arith, has-without name other names n, eq_iff m name, eq_iff m other)

numbered-suc :
    (prefix : String) (n : ℕ)
    → suc n < 2 ^ 31
    → numbered prefix (suc n) ≡ prefix <> "-" <> decimal (suc n)
unfolding numbered signed
numbered-suc prefix n h = ground arith

not_longer : (prefix rest : String) → prefix ≢ prefix <> "-" <> rest
not_longer prefix rest e =
    nil≢cons
      (append_cancel_left prefix "" ("-" <> rest) (append-nil prefix ∙ e) ∙ cons-append _ "" rest)

numbered-injective :
    (prefix : String) (m n : ℕ)
    → m < 2 ^ 31
    → n < 2 ^ 31
    → numbered prefix m ≡ numbered prefix n
    → m ≡ n
unfolding numbered
numbered-injective prefix zero zero h g e = refl
numbered-injective prefix zero (suc n) h g e =
    absurd (not_longer prefix (decimal (suc n)) (e ∙ numbered-suc prefix n g))
numbered-injective prefix (suc m) zero h g e =
    absurd (not_longer prefix (decimal (suc m)) (sym e ∙ numbered-suc prefix m h))
numbered-injective prefix (suc m) (suc n) h g e = decimal-injective (suc m) (suc n) (
    append_cancel_left "-" (decimal (suc m)) (decimal (suc n)) (
      append_cancel_left prefix ("-" <> decimal (suc m)) ("-" <> decimal (suc n))
        (sym (numbered-suc prefix m h) ∙ e ∙ numbered-suc prefix n g)))

-- One of more names than are taken is free.
free_one :
    (prefix : String) (fuel counter : ℕ) (names : List String)
    → length names < fuel
    → counter + fuel ≤ 2 ^ 31
    → (k : ℕ) × (k < fuel) × (has (numbered prefix (counter + k)) names ≡ false)
free_one prefix zero counter names h b = absurd (omega (arith, h))
free_one prefix (suc fuel) counter names h b =
    elim (Bool-cases (has (numbered prefix counter) names)) [
      | inr free ↦ (0, omega arith, rw (plus_zero counter) free)
      | inl taken ↦
          let fewer = without (numbered prefix counter) names in
          let rest =
            free_one prefix fuel (suc counter) fewer
              (omega (arith, without-has (numbered prefix counter) names taken, h))
              (omega (arith, b)) in
          (
            suc rest.0,
            omega (arith, rest.1),
            rw (plus_suc counter rest.0) (
                sym (
                  has-without (numbered prefix counter) (numbered prefix (suc counter + rest.0))
                    names (other rest.0 rest.1))
                ∙ rest.2),
          )
    ]
  where
    plus_zero : (n : ℕ) → n + 0 ≡ n
    plus_zero n = omega arith

    plus_suc : (n k : ℕ) → n + suc k ≡ suc n + k
    plus_suc n k = omega arith

    other : (k : ℕ) → k < fuel → numbered prefix counter ≢ numbered prefix (suc counter + k)
    other k l e = absurd (
        differs (
          numbered-injective prefix counter (suc counter + k) (omega (arith, b))
            (omega (arith, b, l)) e))
      where
        differs : counter ≢ suc counter + k
        differs q = absurd (omega (arith, q))

taken_names : Ams → List String
taken_names a = map (λ (e : String × AgentRegistration). e.0) a.agents ++ a.config.reserved_names

is_name_available-has :
    (a : Ams) (name : String) → is_name_available a name ≡ not (has name (taken_names a))
unfolding is_name_available taken_names contains_key
is_name_available-has a name = go a.agents
  where
    go :
        (agents : Dict AgentRegistration)
        → not (contains_key name agents) && not (is_reserved name a)
          ≡ not (
              has name
                (map (λ (e : String × AgentRegistration). e.0) agents ++ a.config.reserved_names))
    go [] = refl
    go ((n, r) ∷ agents) = ground (arith, go agents)

taken_names-length : (a : Ams) → length (taken_names a) < fuel_of a
unfolding taken_names
taken_names-length a = go a.agents
  where
    go :
        (agents : Dict AgentRegistration)
        → length (map (λ (e : String × AgentRegistration). e.0) agents ++ a.config.reserved_names)
          < suc (length agents + length a.config.reserved_names)
    go [] = omega arith
    go ((n, r) ∷ agents) = omega (arith, go agents)

-- The name with the number is free, and those from a counter on are not.
record IsFirst (a : Ams) (prefix : String) (counter k : ℕ) (r : Option String) : Type 0 where
  found : r ≡ some (numbered prefix k)
  free : is_name_available a (numbered prefix k) ≡ true
  earlier : (i : ℕ) → counter ≤ i → i < k → is_name_available a (numbered prefix i) ≡ false

-- The loop finds the first free name, where there is one within its fuel.
first_available-IsFirst :
    (a : Ams) (prefix : String) (fuel counter m : ℕ)
    → counter ≤ m
    → m < counter + fuel
    → counter + fuel ≤ 2 ^ 31
    → is_name_available a (numbered prefix m) ≡ true
    → (k : ℕ) × IsFirst a prefix counter k (first_available fuel a prefix counter)
unfolding first_available
first_available-IsFirst a prefix zero counter m le lt b free = absurd (omega (arith, le, lt))
first_available-IsFirst a prefix (suc fuel) counter m le lt b free =
    elim (Bool-cases (is_name_available a (numbered prefix counter))) [
      | inl e ↦ (
        counter,
        record {
          found = rw e refl;
          free = e;
          earlier = λ (i : ℕ) (l : counter ≤ i) (g : i < counter). absurd (omega (arith, l, g));
        },
      )
      | inr e ↦
          let rest =
            first_available-IsFirst a prefix fuel (suc counter) m (beyond e (least counter m le))
              (omega (arith, lt)) (omega (arith, b)) free in
          (
            rest.0,
            record {
              found = rw (e, wrap) rest.1.found;
              free = rest.1.free;
              earlier = λ (i : ℕ) (l : counter ≤ i) (g : i < rest.0).
                  before e rest.0 rest.1.earlier i g (least counter i l);
            },
          )
    ]
  where
    wrap : next_counter counter ≡ suc counter
    wrap = omega (arith, b)

    least : (n i : ℕ) → n ≤ i → (i ≡ n) ⊎ (suc n ≤ i)
    least n i l = elim (Bool-cases (ltb n i)) [
      | inl e ↦ inr (ground arith)
      | inr e ↦ inl (ground arith)
    ]

    beyond :
        is_name_available a (numbered prefix counter) ≡ false
        → (m ≡ counter) ⊎ (suc counter ≤ m)
        → suc counter ≤ m
    beyond e (inr l) = l
    beyond e (inl q) =
        absurd (differ e (ap (λ (n : ℕ). is_name_available a (numbered prefix n)) (sym q) ∙ free))
      where
        differ : {b : Bool} → b ≡ false → b ≡ true → ⊥
        differ x y = cc

    before :
        is_name_available a (numbered prefix counter) ≡ false
        → (k : ℕ)
        → ((i : ℕ) → suc counter ≤ i → i < k → is_name_available a (numbered prefix i) ≡ false)
        → (i : ℕ) → i < k
        → (i ≡ counter) ⊎ (suc counter ≤ i)
        → is_name_available a (numbered prefix i) ≡ false
    before e k later i g (inl q) = ap (λ (n : ℕ). is_name_available a (numbered prefix n)) q ∙ e
    before e k later i g (inr l) = later i l g

-- With fewer than 2^31 agents and reserved names, so that the counter never wraps, the generation of a
-- name ends within one round more than there are agents and reserved names. The name is available; it is the prefix, or the prefix with the least number that makes it available.
pub generate_unique_name-available :
    (a : Ams) (prefix : String)
    → length a.agents + length a.config.reserved_names < 2 ^ 31
    → (k : ℕ) × (generate_unique_name a prefix ≡ some (numbered prefix k))
      × (is_name_available a (numbered prefix k) ≡ true)
      × ((i : ℕ) → i < k → is_name_available a (numbered prefix i) ≡ false)
unfolding generate_unique_name
generate_unique_name-available a prefix h =
    let free =
      free_one prefix (fuel_of a) 0 (taken_names a) (taken_names-length a) (omega (arith, h)) in
    let r =
      first_available-IsFirst a prefix (fuel_of a) 0 (0 + free.0) (omega arith)
        (omega (arith, free.1)) (omega (arith, h))
        (is_name_available-has a (numbered prefix (0 + free.0)) ∙ ap not free.2) in
    (r.0, r.1.found, r.1.free, λ (i : ℕ) (g : i < r.0). r.1.earlier i (omega arith) g)
