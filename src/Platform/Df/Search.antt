-- ===== src/Platform/Df/Search.antt =====
-- Searching and subscribing: the rest of crates/fipa-wasm-agents/src/platform/df.rs.
use fipa_wasm.Base.{
  ℕ, zero, suc, ◌+◌, ◌%◌, ◌^◌, String, List, [], ◌∷◌, ◌++◌, map, filter, length, Option, none, some,
}
use fipa_wasm.Base.Dict.{HashOrder, get, insert, remove}
use fipa_wasm.Base.Result.{Result, ok, err}
use fipa_wasm.Acl.{AgentId, ServiceDescription}
use fipa_wasm.Actor.{next_u64}
use fipa_wasm.Platform.Df.{
  Df, DfError, DfSubscription, SearchFilter, ServiceRegistration, subscription_not_found,
  matches_filter,
}

pub record SearchResult : Type 0 where
  pub service : ServiceDescription
  pub provider : AgentId
  pub registered_at : ℕ

pub record SearchRequest : Type 0 where
  pub filter : SearchFilter
  pub max_results : Option ℕ

abbrev take {ℓ} : {A : Type ℓ} → ℕ → List A → List A
take zero xs = []
take (suc n) [] = []
take (suc n) (x ∷ xs) = x ∷ take n xs

abbrev truncate {ℓ} : {A : Type ℓ} → Option ℕ → List A → List A
truncate none xs = xs
truncate (some n) xs = take n xs

abbrev result_of : ServiceRegistration → SearchResult
result_of r = record { service = r.service; provider = r.owner; registered_at = r.registered_at }

-- The two loops, over the services in the order of the map.
abbrev found : SearchFilter → List (String × List ServiceRegistration) → List SearchResult
unfolding matches_filter
found wanted [] = []
found wanted ((name, rs) ∷ services) =
    map result_of (filter (λ (r : ServiceRegistration). matches_filter r.service r.owner wanted) rs)
    ++ found wanted services

unfoldable pub search : HashOrder → SearchRequest → Df → Df × List SearchResult
unfolding found
search h request d =
    let results =
      truncate request.max_results
        (found request.filter (h.order (List ServiceRegistration) d.services)) in
    (
      record d {
        stats = record d.stats {
          searches = next_u64 d.stats.searches;
          search_results = (d.stats.search_results + length results) % 2 ^ 64;
        };
      },
      results,
    )

abbrev pub subscribe : ℕ → AgentId → SearchFilter → Df → Df × Result DfError (Unit {0})
subscribe now subscriber wanted d = (
  record d {
    subscriptions =
        insert subscriber.name
          (record { subscriber = subscriber; filter = wanted; created_at = now }) d.subscriptions;
  },
  ok tt,
)

-- `remove(..).is_some()`
abbrev pub unsubscribe_found : AgentId → Df → Option DfSubscription → Df × Result DfError (Unit {0})
unsubscribe_found subscriber d none = (d, err subscription_not_found)
unsubscribe_found subscriber d (some s) =
    (record d { subscriptions = remove subscriber.name d.subscriptions }, ok tt)

abbrev pub unsubscribe : AgentId → Df → Df × Result DfError (Unit {0})
unsubscribe subscriber d = unsubscribe_found subscriber d (get subscriber.name d.subscriptions)
