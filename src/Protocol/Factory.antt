-- ===== src/Protocol/Factory.antt =====
-- `create_state_machine` of protocol/state_machine.rs: the machines that an agent may start.
pub mod Conversations
use fipa_wasm.Base.{String}
use fipa_wasm.Base.Int.{ℤ}
use fipa_wasm.Base.Dict.{HashOrder}
use fipa_wasm.Base.Result.{Result, ok, err}
use fipa_wasm.Acl.{
  ProtocolType, protocol_request, protocol_query, protocol_contract_net, protocol_subscribe,
}
use fipa_wasm.Protocol.{ProtocolError, not_supported, participant}
use fipa_wasm.Protocol.Machine.{StateMachine}
use fipa_wasm.Protocol.Request
use fipa_wasm.Protocol.Request.{request_machine}
use fipa_wasm.Protocol.Query
use fipa_wasm.Protocol.Query.{query_machine}
use fipa_wasm.Protocol.ContractNet
use fipa_wasm.Protocol.ContractNet.{contract_net_machine}
use fipa_wasm.Protocol.Subscribe
use fipa_wasm.Protocol.Subscribe.{subscribe_machine}

-- `Box<dyn ProtocolStateMachine>`: an implementation and a value of it.
pub record Boxed : Type 1 where
  pub machine : StateMachine
  pub object : machine.Self

unfoldable pub create_state_machine :
    HashOrder → String → ℤ → ProtocolType → Result ProtocolError Boxed
create_state_machine h uuid now protocol_request =
    ok (record { machine = request_machine; object = Request.new uuid now participant })
create_state_machine h uuid now protocol_query =
    ok (record { machine = query_machine; object = Query.new uuid now participant })
create_state_machine h uuid now protocol_contract_net =
    ok (record { machine = contract_net_machine h; object = ContractNet.new uuid now participant })
create_state_machine h uuid now protocol_subscribe =
    ok (record { machine = subscribe_machine; object = Subscribe.new uuid now participant })
create_state_machine h uuid now protocol = err (not_supported protocol)
