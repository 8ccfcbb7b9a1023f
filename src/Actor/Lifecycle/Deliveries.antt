-- ===== src/Actor/Lifecycle/Deliveries.antt =====
-- The conversations of an actor, by an account of the messages delivered to it.
use mathlib.Core.Option
use fipa_wasm.Base.{
  String, ◌≡◌, refl, ap, ◌∙◌, List, [], ◌∷◌, ◌++◌, Option, none, some, Bool, true, false,
  if◌then◌else◌, inl, inr, Bool-cases,
}
use fipa_wasm.Base.Dict.{HashOrder, get}
use fipa_wasm.Base.Result.{Result, ok, err}
use fipa_wasm.Acl.{AclMessage, ProtocolType}
use fipa_wasm.Protocol.{ProtocolError}
use fipa_wasm.Protocol.Machine.Conversation.{Arrivals}
use fipa_wasm.Protocol.Factory.{Boxed, create_state_machine}
use fipa_wasm.Actor.{Runtime, AgentActor}
use fipa_wasm.Actor.Delivery.{process_mailbox}
use fipa_wasm.Actor.Delivery.Conversations.{hold, arrivals_to, process_mailbox-mailbox}
use fipa_wasm.Actor.Lifecycle.{
  is_running, run_answer, tick, deliver, queue, refusal, keep, start_conversation,
}
use fipa_wasm.Actor.Lifecycle.Talks.{
  Event, delivery, passing, start, perform, live, NotReused, taken, all_taken, live-all_taken,
}

-- The queue of what was delivered, of which the capabilities refuse nothing.
abbrev accepted_by : Option ProtocolType → List AclMessage → AclMessage → List AclMessage
accepted_by none pending msg = pending ++ msg ∷ []
accepted_by (some protocol) pending msg = pending

module _ (h : HashOrder) (w : Runtime) where
  -- The messages that wait after an event: a delivery that the capabilities allow joins them, a tick of
  -- a running actor takes them all.
  abbrev pub waiting : AgentActor w → List AclMessage → Event → List AclMessage
  waiting a pending (delivery msg) =
      accepted_by (refusal a.capabilities.allowed_protocols msg.protocol) pending msg
  waiting a pending (passing x) = if is_running a.state then [] else pending
  waiting a pending (start conv_id uuid now protocol) = pending

  -- Those of them that a tick of a running actor hands to the conversation.
  abbrev pub handed : String → AgentActor w → List AclMessage → Event → Arrivals
  handed id a pending (passing x) =
      if is_running a.state then arrivals_to id a.verifier x pending else []
  handed id a pending e = []

  -- All that the conversation is handed over a life, by the messages that wait at its beginning and
  -- those that are delivered.
  abbrev pub delivered : String → AgentActor w → List AclMessage → List Event → Arrivals
  delivered id a pending [] = []
  delivered id a pending (e ∷ es) =
      handed id a pending e ++ delivered id (perform h w a e) (waiting a pending e) es

  queue-mailbox :
      (r : Option ProtocolType) (msg : AclMessage) (a : AgentActor w)
      → (queue w r msg a).0.mailbox ≡ accepted_by r a.mailbox msg
  unfolding queue
  queue-mailbox none msg a = refl
  queue-mailbox (some protocol) msg a = refl

  keep-mailbox :
      (conv_id : String) (r : Result ProtocolError Boxed) (a : AgentActor w)
      → (keep w conv_id r a).0.mailbox ≡ a.mailbox
  unfolding keep
  keep-mailbox conv_id (ok c) a = refl
  keep-mailbox conv_id (err e) a = refl

  run_answer-mailbox :
      (r : Result String Bool) (a : AgentActor w) → (run_answer w r a).mailbox ≡ a.mailbox
  unfolding run_answer
  run_answer-mailbox (ok true) a = refl
  run_answer-mailbox (ok false) a = refl
  run_answer-mailbox (err e) a = refl

  perform-mailbox :
      (e : Event) (a : AgentActor w) → (perform h w a e).mailbox ≡ waiting a a.mailbox e
  unfolding deliver tick start_conversation
  perform-mailbox (delivery msg) a =
      queue-mailbox (refusal a.capabilities.allowed_protocols msg.protocol) msg a
  perform-mailbox (passing x) a = elim (Bool-cases (is_running a.state)) [
    | inl e ↦
        let b = process_mailbox w x a in
        let r = w.call_run b.runtime in
        rw e (run_answer-mailbox r.1 (record b { runtime = r.0 }) ∙ process_mailbox-mailbox w x a)
    | inr n ↦ rw n refl
  ]
  perform-mailbox (start conv_id uuid now protocol) a =
      keep-mailbox conv_id (create_state_machine h uuid now protocol) a

  taken-handed :
      (id : String) (e : Event) (a : AgentActor w) → taken h w id a e ≡ handed id a a.mailbox e
  taken-handed id (delivery msg) a = refl
  taken-handed id (passing x) a = refl
  taken-handed id (start conv_id uuid now protocol) a = refl

  all_taken-delivered :
      (id : String) (es : List Event) (a : AgentActor w)
      → all_taken h w id a es ≡ delivered id a a.mailbox es
  all_taken-delivered id [] a = refl
  all_taken-delivered id (e ∷ es) a =
      ap (λ (xs : Arrivals). xs ++ all_taken h w id (perform h w a e) es) (taken-handed id e a)
      ∙ ap (λ (xs : Arrivals). handed id a a.mailbox e ++ xs)
          (all_taken-delivered id es (perform h w a e)
            ∙ ap (λ (ms : List AclMessage). delivered id (perform h w a e) ms es)
                (perform-mailbox e a))

  -- Over an actor's life each conversation that it holds takes exactly the messages that wait at the
  -- beginning or are delivered and allowed, as the ticks of the running actor come to them: those that
  -- name it and that the verifier passes on undecoded, in the order of their delivery, as long as its
  -- identifier is not drawn again. No other conversation touches it, and it is never dropped.
  pub live-conversations :
      (id : String) (es : List Event) (a : AgentActor w)
      → NotReused h w id es
      → get id (live h w a es).conversations
        ≡ Option.map (hold (delivered id a a.mailbox es)) (get id a.conversations)
  live-conversations id es a n =
      live-all_taken h w id es a n
      ∙ ap (λ (xs : Arrivals). Option.map (hold xs) (get id a.conversations))
          (all_taken-delivered id es a)
