-- ===== src/Protocol/Brokering/Consolidation.antt =====
-- How a broker sums up the answers of its providers, in
-- crates/fipa-wasm-agents/src/protocol/brokering.rs.
use fipa_wasm.Base.{
  ℕ, List, [], ◌∷◌, none, some, Bool, true, false, is_empty, length, all, filter, if◌then◌else◌,
}
use fipa_wasm.Base.Result.{Result, ok, err}
use fipa_wasm.Base.Dict.{HashOrder, values}
use fipa_wasm.Protocol.{ProtocolError, invalid_transition}
use fipa_wasm.Protocol.Brokering.{
  ProviderStatus, ProviderInfo, BrokeringState, BrokeringProtocol, waiting_responses, consolidating,
  completed, failed, as_str,
}

has_responded : ProviderStatus → Bool
has_responded ProviderStatus.completed = true
has_responded ProviderStatus.failed = true
has_responded ProviderStatus.refused = true
has_responded status = false

abbrev all_responded : HashOrder → BrokeringProtocol → Bool
unfolding has_responded
all_responded h p = all (λ (i : ProviderInfo). has_responded i.status) (values h p.providers)

pub is_completed : ProviderStatus → Bool
is_completed ProviderStatus.completed = true
is_completed status = false

abbrev successful_count : HashOrder → BrokeringProtocol → ℕ
unfolding is_completed
successful_count h p =
    length (filter (λ (i : ProviderInfo). is_completed i.status) (values h p.providers))

-- `filter_map(|p| p.response.clone())` after the filter on the status.
unfoldable pub responses : List ProviderInfo → List (List ℕ)
unfolding is_completed
responses [] = []
responses (i ∷ is) =
    if is_completed i.status
    then elim i.response [ none ↦ responses is | some r ↦ r ∷ responses is ]
    else responses is

unfoldable pub may_consolidate : BrokeringState → Bool
may_consolidate waiting_responses = true
may_consolidate consolidating = true
may_consolidate state = false

unfoldable pub consolidate :
    HashOrder → BrokeringProtocol → BrokeringProtocol × Result ProtocolError (Unit {0})
unfolding may_consolidate as_str
consolidate h p =
    let results = responses (values h p.providers) in
    if may_consolidate p.state
    then (
      record p { results = results; state = if is_empty results then failed else completed },
      ok tt,
    )
    else (p, err (invalid_transition (as_str p.state) "consolidate"))
