-- ===== src/Protocol/Machine.antt =====
-- The trait `ProtocolStateMachine` of protocol/state_machine.rs as a record, and what every
-- implementation has to keep.
pub mod Laws
pub mod Conversation
pub mod Log
use fipa_wasm.Base.{ℕ, String, ◌≡◌, List, [], ◌∷◌, ◌++◌, Option, none, some, Bool, true, false}
use fipa_wasm.Base.Int.{ℤ}
use fipa_wasm.Base.Result.{Result, ok, err}
use fipa_wasm.Acl.{AclMessage, Performative, ProtocolType}
use fipa_wasm.Protocol.{ProtocolError, ProcessResult, continue, respond, complete}

-- `&mut self` is the first argument and the first part of the result; the second argument of
-- `process` is the clock.
pub record StateMachine : Type 1 where
  pub Self : Type 0
  pub protocol_type : Self → ProtocolType
  pub state_name : Self → String
  pub validate : Self → AclMessage → Result ProtocolError (Unit {0})
  pub process : Self → ℤ → AclMessage → Self × Result ProtocolError ProcessResult
  pub is_complete : Self → Bool
  pub is_failed : Self → Bool
  pub expected_performatives : Self → List Performative
  pub serialize_state : Self → Result ProtocolError (List ℕ)
  pub message_history : Self → List AclMessage

-- `?` in a method with `&mut self`: an error returns with the object as it then is.
abbrev pub try {ℓ κ ι} :
    {S : Type ℓ} {A : Type κ} {B : Type ι} {E : Type 0}
    → S
    → Result E A
    → (A → S × Result E B)
    → S × Result E B
try s (ok a) f = f a
try s (err e) f = (s, err e)
