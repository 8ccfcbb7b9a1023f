-- ===== src/Acl/Capabilities.antt =====
-- Protocol types as numbers, and the capabilities of an agent, in
-- crates/fipa-wasm-agents/src/proto/fipa.proto. The generated values keep the `Protocol`
-- of their names.
use fipa_wasm.Base.{ℕ, String, ◌≡◌, refl, List, Option, none, some, Bool, if◌then◌else◌, ◌==◌}
use fipa_wasm.Base.Int.{ℤ, pos, negsuc}
use fipa_wasm.Acl.{
  ProtocolType, protocol_unspecified, protocol_request, protocol_query, protocol_request_when,
  protocol_contract_net, protocol_iterated_contract_net, protocol_propose, protocol_brokering,
  protocol_recruiting, protocol_subscribe, protocol_english_auction, protocol_dutch_auction,
}

-- `as i32`
pub protocol_i32 : ProtocolType → ℤ
protocol_i32 protocol_unspecified = pos 0
protocol_i32 protocol_request = pos 1
protocol_i32 protocol_query = pos 2
protocol_i32 protocol_request_when = pos 3
protocol_i32 protocol_contract_net = pos 4
protocol_i32 protocol_iterated_contract_net = pos 5
protocol_i32 protocol_propose = pos 6
protocol_i32 protocol_brokering = pos 7
protocol_i32 protocol_recruiting = pos 8
protocol_i32 protocol_subscribe = pos 9
protocol_i32 protocol_english_auction = pos 10
protocol_i32 protocol_dutch_auction = pos 11

-- `ProtocolType::try_from` on a number that is not negative.
protocol_from_number : ℕ → Option ProtocolType
protocol_from_number n =
    if n == 0
    then some protocol_unspecified
    else if n == 1
    then some protocol_request
    else if n == 2
    then some protocol_query
    else if n == 3
    then some protocol_request_when
    else if n == 4
    then some protocol_contract_net
    else if n == 5
    then some protocol_iterated_contract_net
    else if n == 6
    then some protocol_propose
    else if n == 7
    then some protocol_brokering
    else if n == 8
    then some protocol_recruiting
    else if n == 9
    then some protocol_subscribe
    else if n == 10
    then some protocol_english_auction
    else if n == 11
    then some protocol_dutch_auction
    else none

-- `ProtocolType::try_from(i32)`
pub protocol_try_from : ℤ → Option ProtocolType
unfolding protocol_from_number
protocol_try_from (pos n) = protocol_from_number n
protocol_try_from (negsuc n) = none

-- The derived `Debug` name.
unfoldable pub protocol_debug_name : ProtocolType → String
protocol_debug_name protocol_unspecified = "ProtocolUnspecified"
protocol_debug_name protocol_request = "ProtocolRequest"
protocol_debug_name protocol_query = "ProtocolQuery"
protocol_debug_name protocol_request_when = "ProtocolRequestWhen"
protocol_debug_name protocol_contract_net = "ProtocolContractNet"
protocol_debug_name protocol_iterated_contract_net = "ProtocolIteratedContractNet"
protocol_debug_name protocol_propose = "ProtocolPropose"
protocol_debug_name protocol_brokering = "ProtocolBrokering"
protocol_debug_name protocol_recruiting = "ProtocolRecruiting"
protocol_debug_name protocol_subscribe = "ProtocolSubscribe"
protocol_debug_name protocol_english_auction = "ProtocolEnglishAuction"
protocol_debug_name protocol_dutch_auction = "ProtocolDutchAuction"

pub record AgentCapabilities : Type 0 where
  pub max_memory_bytes : ℕ
  pub max_execution_time_ms : ℕ
  pub allowed_protocols : List ℤ
  pub network_access : ℤ
  pub storage_quota_bytes : ℕ
  pub migration_allowed : Bool
  pub spawn_allowed : Bool
  pub allowed_destinations : List String

-- A protocol type that was written as a number is read back.
pub protocol_try_from-protocol_i32 :
    (p : ProtocolType) → protocol_try_from (protocol_i32 p) ≡ some p
unfolding protocol_try_from protocol_i32
protocol_try_from-protocol_i32 protocol_unspecified = refl
protocol_try_from-protocol_i32 _ = refl
