-- ===== src/Protocol/Lawful.antt =====
-- The machines that `create_state_machine` does not build.
use fipa_wasm.Base.{ℕ, String, List}
use fipa_wasm.Float.{Float}
use fipa_wasm.Protocol.Machine.Laws.{IsLawful}
use fipa_wasm.Protocol.Propose.{propose_machine}
use fipa_wasm.Protocol.Propose.Laws.{propose_machine-IsLawful}
use fipa_wasm.Protocol.EnglishAuction.{Bid, english_auction_machine}
use fipa_wasm.Protocol.EnglishAuction.Laws.{english_auction_machine-IsLawful}
use fipa_wasm.Protocol.DutchAuction.{dutch_auction_machine}
use fipa_wasm.Protocol.DutchAuction.Laws.{dutch_auction_machine-IsLawful}
use fipa_wasm.Protocol.Brokering.{brokering_machine}
use fipa_wasm.Protocol.Brokering.Laws.{brokering_machine-IsLawful}
use fipa_wasm.Protocol.Recruiting.{recruiting_machine}
use fipa_wasm.Protocol.Recruiting.Laws.{recruiting_machine-IsLawful}
use fipa_wasm.Protocol.IteratedContractNet.{iterated_contract_net_machine}
use fipa_wasm.Protocol.IteratedContractNet.Laws.{iterated_contract_net_machine-IsLawful}

-- The other six machines are lawful too: a message that `validate` refuses changes nothing and is
-- answered by the same error; any other is added to the history, and the answer says whether the
-- conversation then runs, has succeeded or has failed; what has failed is complete.
pub other_machines-IsLawful :
    (f : Float) (bid_json : Bid f → List ℕ) (results_json : List (List ℕ) → List ℕ)
    (names_json : List String → List ℕ)
    → IsLawful propose_machine
      × IsLawful (english_auction_machine f bid_json)
      × IsLawful (dutch_auction_machine f)
      × IsLawful (brokering_machine results_json)
      × IsLawful (recruiting_machine f names_json)
      × IsLawful iterated_contract_net_machine
other_machines-IsLawful f bid_json results_json names_json = (
  propose_machine-IsLawful,
  english_auction_machine-IsLawful f bid_json,
  dutch_auction_machine-IsLawful f,
  brokering_machine-IsLawful results_json,
  recruiting_machine-IsLawful f names_json,
  iterated_contract_net_machine-IsLawful,
)
