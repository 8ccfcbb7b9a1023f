-- ===== src/Protocol/Expected.antt =====
-- `expected_performatives` against what `validate` takes.
use fipa_wasm.Base.{ℕ, String, ◌≡◌, List, [], ◌∷◌, Bool, true, false, ◌||◌, ◌==◌, any, arith}
use fipa_wasm.Base.Result.{Result, ok, err}
use fipa_wasm.Base.Dict.{HashOrder}
use fipa_wasm.Base.Int.{pos_part}
use fipa_wasm.Float.{Float}
use fipa_wasm.Acl.{AclMessage, Performative, as_i32, cancel, failure, try_from-as_i32}
use fipa_wasm.Protocol.{ProtocolError, read_performative}
use fipa_wasm.Protocol.Machine.{StateMachine}
use fipa_wasm.Protocol.Request
use fipa_wasm.Protocol.Query
use fipa_wasm.Protocol.Propose
use fipa_wasm.Protocol.ContractNet
use fipa_wasm.Protocol.Brokering
use fipa_wasm.Protocol.Recruiting
use fipa_wasm.Protocol.IteratedContractNet

abbrev pub same : Performative → Performative → Bool
unfolding as_i32
same a b = pos_part (as_i32 a) == pos_part (as_i32 b)

abbrev pub lists : Performative → List Performative → Bool
unfolding same
lists perf = any (same perf)

abbrev pub is_ok : Result ProtocolError (Unit {0}) → Bool
is_ok (ok u) = true
is_ok (err e) = false

-- The message with another performative.
abbrev pub saying : Performative → AclMessage → AclMessage
saying perf msg = record msg { performative = as_i32 perf }

-- From any state exactly the expected performatives are taken, and those of the list.
abbrev pub Exact : (m : StateMachine) → List Performative → Type 0
Exact m always =
    (p : m.Self) (msg : AclMessage) (perf : Performative)
    → is_ok (m.validate p (saying perf msg))
      ≡ (lists perf (m.expected_performatives p) || lists perf always)

request-Exact : Exact Request.request_machine (cancel ∷ [])
unfolding Request.expected_performatives Request.validate read_performative lists
request-Exact p msg perf = ground (arith, try_from-as_i32 perf)

query-Exact : Exact Query.query_machine ([])
unfolding Query.expected_performatives Query.validate read_performative lists
query-Exact p msg perf = ground (arith, try_from-as_i32 perf)

propose-Exact : Exact Propose.propose_machine (cancel ∷ [])
unfolding Propose.expected_performatives Propose.validate read_performative lists
propose-Exact p msg perf = ground (arith, try_from-as_i32 perf)

contract_net-Exact : (h : HashOrder) → Exact (ContractNet.contract_net_machine h) ([])
unfolding ContractNet.expected_performatives ContractNet.validate read_performative lists
contract_net-Exact h p msg perf = ground (arith, try_from-as_i32 perf)

brokering-Exact :
    (json : List (List ℕ) → List ℕ)
    → Exact (Brokering.brokering_machine json) (cancel ∷ failure ∷ [])
unfolding Brokering.expected_performatives Brokering.validate read_performative lists
brokering-Exact json p msg perf = ground (arith, try_from-as_i32 perf)

recruiting-Exact :
    (f : Float) (names : List String → List ℕ)
    → Exact (Recruiting.recruiting_machine f names) (cancel ∷ failure ∷ [])
unfolding Recruiting.expected_performatives Recruiting.validate read_performative lists
recruiting-Exact f names p msg perf = ground (arith, try_from-as_i32 perf)

iterated_contract_net-Exact : Exact IteratedContractNet.iterated_contract_net_machine (cancel ∷ [])
unfolding IteratedContractNet.expected_performatives IteratedContractNet.validate read_performative
    lists
iterated_contract_net-Exact p msg perf = ground (arith, try_from-as_i32 perf)

-- For seven of the ten protocols, from any state, the performatives taken are exactly the expected
-- ones, and besides them cancel (Request, Propose, iterated Contract Net) or cancel and failure
-- (Brokering, Recruiting); a Query and a Contract Net take the expected ones alone.
pub expected-Exact :
    (h : HashOrder) (f : Float) (json : List (List ℕ) → List ℕ) (names : List String → List ℕ)
    → Exact Request.request_machine (cancel ∷ [])
      × Exact Query.query_machine ([])
      × Exact Propose.propose_machine (cancel ∷ [])
      × Exact (ContractNet.contract_net_machine h) ([])
      × Exact (Brokering.brokering_machine json) (cancel ∷ failure ∷ [])
      × Exact (Recruiting.recruiting_machine f names) (cancel ∷ failure ∷ [])
      × Exact IteratedContractNet.iterated_contract_net_machine (cancel ∷ [])
expected-Exact h f json names = (
  request-Exact,
  query-Exact,
  propose-Exact,
  contract_net-Exact h,
  brokering-Exact json,
  recruiting-Exact f names,
  iterated_contract_net-Exact,
)
