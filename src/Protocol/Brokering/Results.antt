-- ===== src/Protocol/Brokering/Results.antt =====
-- The results that a broker gathers.
use mathlib.Core.Logic.{∥∥₁_elim, ∥∥₁_prop}
use mathlib.Core.List.{perm_append_comm, Permᴰ}
use mathlib.Core.List.Perm
use fipa_wasm.Base.{
  ℕ, String, ◌≡◌, refl, ◌≤◌, List, [], ◌∷◌, ◌++◌, Option, some, arith, Bool, true, map, Perm,
  length, append_assoc, is_empty, subst, ◌∙◌, ap, if◌then◌else◌,
}
use fipa_wasm.Base.Int.{ℤ}
use fipa_wasm.Base.Result.{Result, ok, err}
use fipa_wasm.Base.Dict.{HashOrder, Dict, values}
use fipa_wasm.Acl.{AclMessage, try_from, inform_result}
use fipa_wasm.Protocol.{ProtocolError, invalid_transition, read_performative, no_transition}
use fipa_wasm.Protocol.Machine.Conversation.{Arrivals, run, run_keeps}
use fipa_wasm.Protocol.Brokering.Consolidation.{
  is_completed, may_consolidate, responses, consolidate,
}
use fipa_wasm.Protocol.Brokering.{
  BrokeringState, BrokeringProtocol, ProviderInfo, ProviderStatus, not_started, proxy_received,
  forwarding, waiting_responses, cancelled, consolidating, completed, failed, validate_transition,
  advance, process, brokering_machine, as_str,
}

-- What one provider contributes: its response, if it has completed and has given one.
abbrev given : ProviderStatus → Option (List ℕ) → List (List ℕ)
given ProviderStatus.completed (some r) = r ∷ []
given status r = []

-- What the providers contribute, in order.
abbrev pub given_by : List ProviderInfo → List (List ℕ)
given_by [] = []
given_by (i ∷ is) = given i.status i.response ++ given_by is

-- The entries of the table, in the order of their insertion.
abbrev pub infos : Dict ProviderInfo → List ProviderInfo
infos = map (λ (e : String × ProviderInfo). e.1)

-- The broker has these results, each as often, and has failed if there is none.
abbrev pub Gathered : List (List ℕ) → BrokeringProtocol × Result ProtocolError (Unit {0}) → Type 0
Gathered contributions o =
    (o.1 ≡ ok tt)
    × Perm o.0.results contributions
    × (o.0.state ≡ (if is_empty contributions then failed else completed))

abbrev pub IsUntimely :
    BrokeringProtocol → BrokeringProtocol × Result ProtocolError (Unit {0}) → Type 0
IsUntimely p o = o ≡ (p, err (invalid_transition (as_str p.state) "consolidate"))

-- What `consolidate` does in a state.
abbrev pub Consolidated :
    BrokeringState
    → BrokeringProtocol
    → BrokeringProtocol × Result ProtocolError (Unit {0})
    → Type 0
Consolidated waiting_responses p o = Gathered (given_by (infos p.providers)) o
Consolidated consolidating p o = Gathered (given_by (infos p.providers)) o
Consolidated state p o = IsUntimely p o

-- The response of one provider, if it completed and gave one.
abbrev one : Bool → Option (List ℕ) → List (List ℕ)
one true (some r) = r ∷ []
one done r = []

responses-cons :
    (i : ProviderInfo) (is : List ProviderInfo)
    → responses (i ∷ is) ≡ one (is_completed i.status) i.response ++ responses is
unfolding responses
responses-cons i is = ground arith

responses-permᴰ : {is js : List ProviderInfo} → Permᴰ is js → Perm (responses is) (responses js)
responses-permᴰ Permᴰ.nil = Perm.refl (responses [])
responses-permᴰ (Permᴰ.cons {a = a} {b = b} {l₁ = is} {l₂ = js} e p) =
    rw (e, responses-cons b is, responses-cons b js)
      (Perm.append_left (one (is_completed b.status) b.response) (responses-permᴰ p))
responses-permᴰ (Permᴰ.swap {a = a} {b = b} {a' = a'} {b' = b'} {l = is} e e') =
    rw
      (
        e,
        e',
        responses-cons b' (a' ∷ is),
        responses-cons a' is,
        responses-cons a' (b' ∷ is),
        responses-cons b' is,
        ← append_assoc,
        ← append_assoc,
      )
      (Perm.append_right (responses is) (
        perm_append_comm (one (is_completed b'.status) b'.response)
          (one (is_completed a'.status) a'.response)))
responses-permᴰ (Permᴰ.trans p q) = Perm.trans (responses-permᴰ p) (responses-permᴰ q)

responses-perm : {is js : List ProviderInfo} → Perm is js → Perm (responses is) (responses js)
responses-perm p = ∥∥₁_elim p ∥∥₁_prop responses-permᴰ

responses-given_by : (is : List ProviderInfo) → responses is ≡ given_by is
unfolding responses
responses-given_by [] = refl
responses-given_by (i ∷ is) =
    responses-cons i is
    ∙ rw (responses-given_by is) (ap (λ xs. xs ++ given_by is) (each i.status i.response))
  where
    each :
        (status : ProviderStatus) (r : Option (List ℕ))
        → one (is_completed status) r ≡ given status r
    each status r = ground arith

gathered-perm :
    (h : HashOrder) (m : Dict ProviderInfo) → Perm (responses (values h m)) (given_by (infos m))
gathered-perm h m =
    subst (Perm (responses (values h m))) (responses-given_by (infos m))
      (responses-perm (Perm.map _ (h.order_perm ProviderInfo m)))

is_empty-permᴰ : {xs ys : List (List ℕ)} → Permᴰ xs ys → is_empty xs ≡ is_empty ys
is_empty-permᴰ Permᴰ.nil = refl
is_empty-permᴰ (Permᴰ.cons e p) = refl
is_empty-permᴰ (Permᴰ.swap e e') = refl
is_empty-permᴰ (Permᴰ.trans p q) = is_empty-permᴰ p ∙ is_empty-permᴰ q

Bool-set : IsSet Bool
Bool-set = hlevel

is_empty-perm : {xs ys : List (List ℕ)} → Perm xs ys → is_empty xs ≡ is_empty ys
is_empty-perm p = ∥∥₁_elim p (Bool-set _ _) is_empty-permᴰ

-- While responses are awaited or consolidated, consolidation succeeds: in whatever order the table is
-- walked, the results are the responses of the providers whose status is completed, each as often, and
-- the state is failed if there is none and else completed. In any other state it is refused and changes
-- nothing.
pub consolidate-gathers :
    (h : HashOrder) (p : BrokeringProtocol) → Consolidated p.state p (consolidate h p)
unfolding consolidate may_consolidate
consolidate-gathers h p = by_state p.state refl
  where
    both : Gathered (given_by (infos p.providers)) (
      record p {
        results = responses (values h p.providers);
        state = if is_empty (responses (values h p.providers)) then failed else completed;
      },
      ok tt,
    )
    both = (
      refl,
      gathered-perm h p.providers,
      ap (λ b. if b then failed else completed) (is_empty-perm (gathered-perm h p.providers)),
    )

    by_state : (s : BrokeringState) → p.state ≡ s → Consolidated s p (consolidate h p)
    by_state waiting_responses e = rw e both
    by_state consolidating e = rw e both
    by_state not_started e = rw e refl
    by_state proxy_received e = rw e refl
    by_state forwarding e = rw e refl
    by_state completed e = rw e refl
    by_state failed e = rw e refl
    by_state cancelled e = rw e refl

abbrev Few : BrokeringState → List (List ℕ) → Type 0
Few consolidating results = length results ≤ 1
Few completed results = length results ≤ 1
Few failed results = length results ≤ 1
Few cancelled results = length results ≤ 1
Few state results = results ≡ []

process-Few :
    (results_json : List (List ℕ) → List ℕ) (p : BrokeringProtocol) (now : ℤ) (msg : AclMessage)
    → Few p.state p.results
    → Few (process results_json p now msg).0.state (process results_json p now msg).0.results
unfolding process validate_transition advance
process-Few results_json p now msg v = ground arith

results_bounded :
    (results_json : List (List ℕ) → List ℕ) (p : BrokeringProtocol)
    → Few p.state p.results
    → length p.results ≤ 1
results_bounded results_json p v = ground arith

-- A broker that has not started and holds no result gathers at most one result by processing messages.
pub messages_gather_one :
    (results_json : List (List ℕ) → List ℕ) (p : BrokeringProtocol) (arrivals : Arrivals)
    → p.state ≡ not_started
    → p.results ≡ []
    → length (run (brokering_machine results_json) p arrivals).results ≤ 1
messages_gather_one results_json p arrivals fresh empty =
    results_bounded results_json (run (brokering_machine results_json) p arrivals) (
      run_keeps (brokering_machine results_json) (λ (q : BrokeringProtocol). Few q.state q.results)
        (process-Few results_json) p arrivals (rw fresh empty))

-- The first inform-result to a broker that waits for responses closes the collection: a second one, from
-- whatever provider, is refused and changes nothing.
pub second_result_refused :
    (results_json : List (List ℕ) → List ℕ) (p : BrokeringProtocol) (now later : ℤ)
    (msg other : AclMessage)
    → p.state ≡ waiting_responses
    → try_from msg.performative ≡ some inform_result
    → try_from other.performative ≡ some inform_result
    → let q = (process results_json p now msg).0 in
      process results_json q later other ≡ (q, no_transition "consolidating" inform_result)
unfolding process read_performative validate_transition advance as_str
second_result_refused results_json p now later msg other w i i' = ground arith
