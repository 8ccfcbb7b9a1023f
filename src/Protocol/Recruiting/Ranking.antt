-- ===== src/Protocol/Recruiting/Ranking.antt =====
-- The candidates of a recruiter: ranked, within the limit, and above the threshold.
use mathlib.Core.List.{perm_append_singleton}
use mathlib.Core.List.Perm
use fipa_wasm.Base.{
  ℕ, String, ◌≡◌, refl, ◌≤◌, List, [], ◌∷◌, ◌++◌, Option, arith, Bool, true, false, inl, inr,
  Bool-cases, All, length, Perm, length-append, suc, ◌<◌, ◌&&◌, not, ltb, ltb→lt, lt→ltb,
}
use fipa_wasm.Base.Int.{ℤ}
use fipa_wasm.Float.{Float}
use fipa_wasm.Acl.{AgentId, ServiceDescription}
use fipa_wasm.Protocol.Recruiting.{
  RecruitingProtocol, Candidate, comes_after, place, sort, add_candidate, new_as_recruiter,
  with_max_candidates, with_min_score,
}

-- The arguments of one call of `add_candidate`.
pub record Offer (f : Float) : Type 0 where
  pub agent : AgentId
  pub service : Option ServiceDescription
  pub score : f.F64

module _ (f : Float) where
  open f use {F64, le}

  -- The first score is below the second.
  abbrev pub below : F64 → F64 → Bool
  below x y = le x y && not (le y x)

  -- No candidate stands directly behind one with a lower score.
  abbrev pub Ranked : List (Candidate f) → Type 0
  Ranked [] = Unit {0}
  Ranked (c ∷ []) = Unit {0}
  Ranked (c ∷ (d ∷ ds)) = (below c.score d.score ≡ false) × Ranked (d ∷ ds)

  comes_after-below : (a b : Candidate f) → comes_after f a b ≡ below a.score b.score
  unfolding comes_after
  comes_after-below a b = ground arith

  below_asymm : (x y : F64) → below x y ≡ true → below y x ≡ false
  below_asymm x y h = ground arith

  place-Ranked : (a : Candidate f) (cs : List (Candidate f)) → Ranked cs → Ranked (place f a cs)
  unfolding place
  place-Ranked a [] r = tt
  place-Ranked a (b ∷ []) r = ground (arith, comes_after-below a b, below_asymm a.score b.score)
  place-Ranked a (b ∷ (c ∷ cs)) r =
      ground
        (arith, comes_after-below a b, below_asymm a.score b.score, place-Ranked a (c ∷ cs) r.1)

  sort-Ranked : (cs : List (Candidate f)) → Ranked (sort f cs)
  unfolding sort
  sort-Ranked [] = tt
  sort-Ranked (c ∷ cs) = place-Ranked c (sort f cs) (sort-Ranked cs)

  place-perm : (a : Candidate f) (cs : List (Candidate f)) → Perm (place f a cs) (a ∷ cs)
  unfolding place
  place-perm a [] = Perm.refl (a ∷ [])
  place-perm a (b ∷ bs) = elim (Bool-cases (comes_after f a b)) [
    | inl y ↦ rw y (Perm.trans (Perm.cons b (place-perm a bs)) (Perm.swap a b bs))
    | inr n ↦ rw n (Perm.refl (a ∷ b ∷ bs))
  ]

  pub sort-perm : (cs : List (Candidate f)) → Perm (sort f cs) cs
  unfolding sort
  sort-perm [] = Perm.refl []
  sort-perm (c ∷ cs) = Perm.trans (place-perm c (sort f cs)) (Perm.cons c (sort-perm cs))

  length-place :
      (a : Candidate f) (cs : List (Candidate f)) → length (place f a cs) ≡ suc (length cs)
  unfolding place
  length-place a [] = refl
  length-place a (b ∷ bs) = ground (arith, length-place a bs)

  length-sort : (cs : List (Candidate f)) → length (sort f cs) ≡ length cs
  unfolding sort
  length-sort [] = refl
  length-sort (c ∷ cs) = ground (arith, length-place c (sort f cs), length-sort cs)

  abbrev Above : F64 → Candidate f → Type 0
  Above min_score c = le min_score c.score ≡ true

  All-place :
      (min_score : F64) (a : Candidate f) (cs : List (Candidate f))
      → Above min_score a
      → All (Above min_score) cs
      → All (Above min_score) (place f a cs)
  unfolding place
  All-place min_score a [] h all = (h, tt)
  All-place min_score a (b ∷ bs) h all = ground (arith, All-place min_score a bs h all.1)

  All-sort :
      (min_score : F64) (cs : List (Candidate f))
      → All (Above min_score) cs
      → All (Above min_score) (sort f cs)
  unfolding sort
  All-sort min_score [] all = tt
  All-sort min_score (c ∷ cs) all =
      All-place min_score c (sort f cs) all.0 (All-sort min_score cs all.1)

  All-snoc :
      (min_score : F64) (cs : List (Candidate f)) (c : Candidate f)
      → All (Above min_score) cs
      → Above min_score c
      → All (Above min_score) (cs ++ c ∷ [])
  All-snoc min_score [] c all h = (h, tt)
  All-snoc min_score (d ∷ ds) c all h = (all.0, All-snoc min_score ds c all.1 h)

  pub record IsShortlist (p : RecruitingProtocol f) : Type 0 where
    pub ranked : Ranked p.candidates
    pub bounded : length p.candidates ≤ p.max_candidates
    pub eligible : All (λ (c : Candidate f). le p.min_score c.score ≡ true) p.candidates

  both_true : (a b : Bool) → (a && b) ≡ true → (a ≡ true) × (b ≡ true)
  both_true a b h = ground arith

  added-IsShortlist :
      (p : RecruitingProtocol f) (c : Candidate f)
      → le p.min_score c.score ≡ true
      → length p.candidates < p.max_candidates
      → IsShortlist p
      → IsShortlist (record p { candidates = sort f (p.candidates ++ c ∷ []) })
  added-IsShortlist p c e l v = record {
    ranked = sort-Ranked (p.candidates ++ c ∷ []);
    bounded =
        omega (arith, length-sort (p.candidates ++ c ∷ []), length-append p.candidates (c ∷ []));
    eligible =
        All-sort p.min_score (p.candidates ++ c ∷ [])
          (All-snoc p.min_score p.candidates c v.eligible e);
  }

  add_candidate-IsShortlist :
      (p : RecruitingProtocol f) (o : Offer f)
      → IsShortlist p
      → IsShortlist (add_candidate f o.agent o.service o.score p)
  unfolding add_candidate
  add_candidate-IsShortlist p o v =
      elim (Bool-cases (le p.min_score o.score && ltb (length p.candidates) p.max_candidates)) [
        | inl y ↦
            let (e, l) = both_true (le p.min_score o.score) _ y in
            rw y (
              added-IsShortlist p
                (record { agent_id = o.agent; service = o.service; score = o.score }) e
                (ltb→lt _ _ l) v)
        | inr n ↦ rw n v
      ]

  pub add_all : RecruitingProtocol f → List (Offer f) → RecruitingProtocol f
  add_all p [] = p
  add_all p (o ∷ os) = add_all (add_candidate f o.agent o.service o.score p) os

  add_all-IsShortlist :
      (p : RecruitingProtocol f) (os : List (Offer f)) → IsShortlist p → IsShortlist (add_all p os)
  unfolding add_all
  add_all-IsShortlist p [] v = v
  add_all-IsShortlist p (o ∷ os) v =
      add_all-IsShortlist (add_candidate f o.agent o.service o.score p) os
        (add_candidate-IsShortlist p o v)

  -- Whatever candidates are added, none in the list stands directly behind one with a lower score, the
  -- list is no longer than the limit, and every score in it is at least the threshold.
  pub recruiter-IsShortlist :
      (uuid : String) (now : ℤ) (max : ℕ) (min_score : F64) (os : List (Offer f))
      → IsShortlist (
          add_all
            (with_min_score f min_score (with_max_candidates f max (new_as_recruiter f uuid now)))
            os)
  unfolding with_min_score with_max_candidates new_as_recruiter
  recruiter-IsShortlist uuid now max min_score os = add_all-IsShortlist _ os (ground arith)

  -- A candidate that meets the threshold, where there is room, is added to the list, and no other
  -- candidate is lost or changed.
  pub add_candidate-perm :
      (p : RecruitingProtocol f) (o : Offer f)
      → le p.min_score o.score ≡ true
      → length p.candidates < p.max_candidates
      → Perm
          (add_candidate f o.agent o.service o.score p).candidates
          (record { agent_id = o.agent; service = o.service; score = o.score } ∷ p.candidates)
  unfolding add_candidate
  add_candidate-perm p o e l =
      rw (e, lt→ltb _ _ l)
        (Perm.trans (sort-perm (p.candidates ++ _ ∷ [])) (perm_append_singleton _ p.candidates))
