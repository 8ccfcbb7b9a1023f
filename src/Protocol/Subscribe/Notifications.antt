-- ===== src/Protocol/Subscribe/Notifications.antt =====
-- The counter and the last notification of a subscription, read off the message log.
use fipa_wasm.Base.{
  ℕ, String, ◌≡◌, refl, List, [], ◌∷◌, ◌++◌, Option, none, some, arith, ◌+◌, ◌%◌, ◌^◌,
}
use fipa_wasm.Base.Int.{ℤ}
use fipa_wasm.Base.Result.{ok}
use fipa_wasm.Acl.{AclMessage, Performative, try_from, inform_result, failure, cancel}
use fipa_wasm.Protocol.{add_participant, read_performative, try_from-read, Role, no_transition}
use fipa_wasm.Protocol.Machine.Laws.{step_by}
use fipa_wasm.Protocol.Machine.Conversation.{Arrivals, run, run_keeps}
use fipa_wasm.Protocol.Subscribe.{
  SubscribeState, SubscribeProtocol, agreed, as_str, validate_transition, advance, process,
  expected_performatives, subscribe_machine, new,
}

abbrev is_notification : Option Performative → ℕ
is_notification (some inform_result) = 1
is_notification perf = 0

abbrev latest : Option Performative → List ℕ → Option (List ℕ) → Option (List ℕ)
latest (some inform_result) content before = some content
latest perf content before = before

-- How many entries of a log are `inform-result` messages.
pub notifications : List AclMessage → ℕ
notifications [] = 0
notifications (m ∷ log) = is_notification (try_from m.performative) + notifications log

-- The content of the last `inform-result` of a log, or `before` if it has none.
pub last_content : Option (List ℕ) → List AclMessage → Option (List ℕ)
last_content before [] = before
last_content before (m ∷ log) = last_content (latest (try_from m.performative) m.content before) log

notifications-snoc :
    (log : List AclMessage) (msg : AclMessage)
    → notifications (log ++ msg ∷ [])
      ≡ notifications log + is_notification (try_from msg.performative)
unfolding notifications
notifications-snoc [] msg = omega arith
notifications-snoc (m ∷ log) msg = omega (arith, notifications-snoc log msg)

last_content-snoc :
    (before : Option (List ℕ)) (log : List AclMessage) (msg : AclMessage)
    → last_content before (log ++ msg ∷ [])
      ≡ latest (try_from msg.performative) msg.content (last_content before log)
unfolding last_content
last_content-snoc before [] msg = refl
last_content-snoc before (m ∷ log) msg =
    last_content-snoc (latest (try_from m.performative) m.content before) log msg

pub record Counts (p : SubscribeProtocol) : Type 0 where
  pub counted : p.notification_count ≡ notifications p.base.messages % 2 ^ 64
  pub latest_kept : p.last_notification ≡ last_content none p.base.messages

advance-Counts :
    (p : SubscribeProtocol) (msg : AclMessage) (perf : Performative) (s : SubscribeState)
    → Counts p
    → read_performative msg ≡ ok perf
    → validate_transition p perf ≡ ok s
    → Counts (advance msg perf s p).0
unfolding add_participant validate_transition advance
advance-Counts p msg perf s c r t = ground (
  arith,
  try_from-read msg r,
  notifications-snoc p.base.messages msg,
  last_content-snoc none p.base.messages msg,
)

process-Counts :
    (p : SubscribeProtocol) (now : ℤ) (msg : AclMessage) → Counts p → Counts (process p now msg).0
unfolding process
process-Counts p now msg c =
    step_by subscribe_machine validate_transition (λ q now' msg' perf' s. advance msg' perf' s q)
      Counts p now msg c λ perf s r t. advance-Counts p msg perf s c r t

-- After any messages the counter is the number of inform-result messages in the history, modulo 2^64,
-- and the last notification is the content of the last of them.
pub run-Counts :
    (uuid : String) (start : ℤ) (role : Role) (arrivals : Arrivals)
    → Counts (run subscribe_machine (new uuid start role) arrivals)
unfolding new notifications last_content
run-Counts uuid start role arrivals =
    run_keeps subscribe_machine Counts process-Counts (new uuid start role) arrivals (ground arith)

-- In the agreed state a failure is among the expected performatives, and `process` refuses it with the
-- error of an invalid transition and leaves the object unchanged.
pub expected_failure_refused :
    (p : SubscribeProtocol) (now : ℤ) (msg : AclMessage)
    → p.state ≡ agreed
    → try_from msg.performative ≡ some failure
    → (expected_performatives p ≡ inform_result ∷ failure ∷ cancel ∷ [])
      × (process p now msg ≡ (p, no_transition "agreed" failure))
unfolding expected_performatives process read_performative validate_transition as_str
expected_failure_refused p now msg h f = ground arith
