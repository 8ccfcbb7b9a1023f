-- ===== src/Actor/Lifecycle/Gate.antt =====
-- What an actor lets in: the capabilities check of a delivery, and the content verifier.
use fipa_wasm.Base.{◌≡◌, refl, [], some}
use fipa_wasm.Base.Result.{err}
use fipa_wasm.Acl.{AclMessage, ProtocolType}
use fipa_wasm.Acl.Capabilities.{protocol_i32, protocol_try_from-protocol_i32}
use fipa_wasm.Actor.{protocol_not_allowed, Runtime, AgentActor}
use fipa_wasm.Actor.Lifecycle.{deliver, queue}

-- An actor whose list of allowed protocols is empty refuses every message that names one of the twelve
-- protocol types, with the error that names it, and does not queue it.
pub empty_allowance_refuses :
    (w : Runtime) (protocol : ProtocolType) (msg : AclMessage) (a : AgentActor w)
    → a.capabilities.allowed_protocols ≡ []
    → msg.protocol ≡ some (protocol_i32 protocol)
    → deliver w msg a ≡ (a, err (protocol_not_allowed protocol))
unfolding deliver queue
empty_allowance_refuses w protocol msg a none_allowed named =
    rw (none_allowed, named, protocol_try_from-protocol_i32 protocol) refl
