-- ===== src/Protocol/Examples/Talks.antt =====
-- Request, Query, Propose and Subscribe conversations.
use fipa_wasm.Base.{◌≡◌, refl, [], ◌∷◌, true}
use fipa_wasm.Base.Dict.{insertion_order}
use fipa_wasm.Acl.{
  request, agree, inform_done, cancel, query_if, propose, subscribe, inform_result, as_i32,
  try_from, protocol_query,
}
use fipa_wasm.Protocol.{participant, add_participant}
use fipa_wasm.Protocol.Machine.Laws.{IsLawful}
use fipa_wasm.Protocol.Machine.Conversation.{run}
use fipa_wasm.Protocol.Samples.{say_all, now, cents}
use fipa_wasm.Protocol.Request
use fipa_wasm.Protocol.Request.{RequestProtocol, request_machine}
use fipa_wasm.Protocol.Request.Trace.{Shaped as RequestShaped, request_run-Shaped}
use fipa_wasm.Protocol.Query
use fipa_wasm.Protocol.Query.{QueryProtocol, query_machine}
use fipa_wasm.Protocol.Query.Trace.{Shaped as QueryShaped, query_run-Shaped}
use fipa_wasm.Protocol.Propose
use fipa_wasm.Protocol.Propose.{ProposeProtocol, propose_machine}
use fipa_wasm.Protocol.Propose.Trace.{Shaped as ProposeShaped, propose_run-Shaped}
use fipa_wasm.Protocol.Subscribe
use fipa_wasm.Protocol.Subscribe.{SubscribeProtocol, subscribe_machine}
use fipa_wasm.Protocol.Subscribe.Notifications.{Counts, run-Counts}
use fipa_wasm.Protocol.Expected.{Exact, expected-Exact}
use fipa_wasm.Protocol.Lawful.{other_machines-IsLawful}
use fipa_wasm.Protocol.Factory.{create_state_machine}
use fipa_wasm.Protocol.Factory.Conversations.{Starts, create_state_machine-Starts}

abbrev asked : RequestProtocol
asked = run request_machine (Request.new "c" now participant) (say_all (request ∷ agree ∷ []))

abbrev done : RequestProtocol
done =
    run request_machine (Request.new "c" now participant)
      (say_all (request ∷ agree ∷ inform_done ∷ []))

done_completes : Request.is_complete done ≡ true
unfolding run Request.new Request.process Request.is_complete try_from as_i32 add_participant
done_completes = refl

request_run-Shaped_example : RequestShaped done
request_run-Shaped_example =
    request_run-Shaped "c" now participant (say_all (request ∷ agree ∷ inform_done ∷ []))

abbrev queried : QueryProtocol
queried = run query_machine (Query.new "c" now participant) (say_all (query_if ∷ agree ∷ []))

query_run-Shaped_example : QueryShaped queried
query_run-Shaped_example = query_run-Shaped "c" now participant (say_all (query_if ∷ agree ∷ []))

abbrev proposed : ProposeProtocol
proposed = run propose_machine (Propose.new "c" now participant) (say_all (propose ∷ []))

propose_run-Shaped_example : ProposeShaped proposed
propose_run-Shaped_example = propose_run-Shaped "c" now participant (say_all (propose ∷ []))

abbrev notified : SubscribeProtocol
notified =
    run subscribe_machine (Subscribe.new "c" now participant)
      (say_all (subscribe ∷ agree ∷ inform_result ∷ inform_result ∷ []))

run-Counts_example : Counts notified
run-Counts_example =
    run-Counts "c" now participant
      (say_all (subscribe ∷ agree ∷ inform_result ∷ inform_result ∷ []))

notified_twice : notified.notification_count ≡ 2
unfolding run Subscribe.new Subscribe.process try_from as_i32 add_participant
notified_twice = refl

abbrev waiting : SubscribeProtocol
waiting =
    run subscribe_machine (Subscribe.new "c" now participant) (say_all (subscribe ∷ agree ∷ []))

expected-Exact_example : Exact request_machine (cancel ∷ [])
expected-Exact_example = (expected-Exact insertion_order cents (λ r. []) (λ n. [])).0

other_machines-IsLawful_example : IsLawful propose_machine
other_machines-IsLawful_example = (other_machines-IsLawful cents (λ b. []) (λ r. []) (λ n. [])).0

create_state_machine-Starts_example :
    Starts protocol_query
      (say_all (query_if ∷ agree ∷ []))
      (create_state_machine insertion_order "c" now protocol_query)
create_state_machine-Starts_example =
    create_state_machine-Starts insertion_order "c" now protocol_query
      (say_all (query_if ∷ agree ∷ []))
