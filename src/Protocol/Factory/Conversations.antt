-- ===== src/Protocol/Factory/Conversations.antt =====
-- What an agent may rely on of a conversation that it starts, whatever the protocol.
use fipa_wasm.Base.{String, ◌≡◌, refl, Bool, true, false}
use fipa_wasm.Base.Int.{ℤ}
use fipa_wasm.Base.Dict.{HashOrder}
use fipa_wasm.Base.Result.{Result, ok, err}
use fipa_wasm.Acl.{
  ProtocolType, protocol_request, protocol_query, protocol_contract_net, protocol_subscribe,
}
use fipa_wasm.Protocol.{ProtocolError, not_supported}
use fipa_wasm.Protocol.Machine.Laws.{IsLawful}
use fipa_wasm.Protocol.Machine.Conversation.{Arrivals, run, accepted, history-run}
use fipa_wasm.Protocol.Request
use fipa_wasm.Protocol.Request.Laws.{request_machine-IsLawful}
use fipa_wasm.Protocol.Query
use fipa_wasm.Protocol.Query.Laws.{query_machine-IsLawful}
use fipa_wasm.Protocol.ContractNet
use fipa_wasm.Protocol.ContractNet.Laws.{contract_net_machine-IsLawful}
use fipa_wasm.Protocol.Subscribe
use fipa_wasm.Protocol.Subscribe.Laws.{subscribe_machine-IsLawful}
use fipa_wasm.Protocol.Factory.{Boxed, create_state_machine}

-- A started machine is lawful and running, and its history is what it is given and takes.
abbrev pub Runs : Arrivals → Boxed → Type 0
Runs arrivals b =
    IsLawful b.machine
    × (b.machine.is_complete b.object ≡ false)
    × (b.machine.message_history (run b.machine b.object arrivals)
        ≡ accepted b.machine b.object arrivals)

-- The protocols that an agent may start.
abbrev pub is_supported : ProtocolType → Bool
is_supported protocol_request = true
is_supported protocol_query = true
is_supported protocol_contract_net = true
is_supported protocol_subscribe = true
is_supported protocol = false

-- What is started says of itself that it speaks the protocol; what is not supported is refused by name.
abbrev pub Starts : ProtocolType → Arrivals → Result ProtocolError Boxed → Type 0
Starts protocol arrivals (ok b) =
    (is_supported protocol ≡ true) × (b.machine.protocol_type b.object ≡ protocol) × Runs arrivals b
Starts protocol arrivals (err e) = (is_supported protocol ≡ false) × (e ≡ not_supported protocol)

-- Each of Request, Query, Contract Net and Subscribe starts a machine that says that it speaks the
-- protocol, is lawful and not complete, and whose history after any messages is those that it was given
-- and took, in order; any other protocol is refused with the error that names it.
pub create_state_machine-Starts :
    (h : HashOrder) (uuid : String) (now : ℤ) (protocol : ProtocolType) (arrivals : Arrivals)
    → Starts protocol arrivals (create_state_machine h uuid now protocol)
unfolding create_state_machine Request.new Request.is_complete Query.new Query.is_complete
    ContractNet.new ContractNet.is_complete Subscribe.new Subscribe.is_complete
create_state_machine-Starts h uuid now protocol_request arrivals = (
  refl,
  refl,
  (
    request_machine-IsLawful,
    refl,
    history-run Request.request_machine request_machine-IsLawful _ arrivals,
  ),
)
create_state_machine-Starts h uuid now protocol_query arrivals = (
  refl,
  refl,
  (query_machine-IsLawful, refl, history-run Query.query_machine query_machine-IsLawful _ arrivals),
)
create_state_machine-Starts h uuid now protocol_contract_net arrivals = (
  refl,
  refl,
  (
    contract_net_machine-IsLawful h,
    refl,
    history-run (ContractNet.contract_net_machine h) (contract_net_machine-IsLawful h) _ arrivals,
  ),
)
create_state_machine-Starts h uuid now protocol_subscribe arrivals = (
  refl,
  refl,
  (
    subscribe_machine-IsLawful,
    refl,
    history-run Subscribe.subscribe_machine subscribe_machine-IsLawful _ arrivals,
  ),
)
create_state_machine-Starts h uuid now protocol arrivals = (refl, refl)
