-- ===== src/Actor/Lifecycle/Talks.antt =====
-- The conversations of an actor over its life.
use mathlib.Core.Option
use fipa_wasm.Base.{
  subst, eq_iff, refl, ℕ, String, ◌≡◌, refl, ap, ◌∙◌, List, [], ◌∷◌, ◌++◌, Option, none, some, Bool,
  true, false, if◌then◌else◌, ◌=s=◌, eq_iff, inl, inr, Bool-cases,
}
use fipa_wasm.Base.Int.{ℤ}
use fipa_wasm.Base.Dict.{HashOrder, get, get-insert}
use fipa_wasm.Base.Result.{Result, ok, err}
use fipa_wasm.Acl.{AclMessage, ProtocolType}
use fipa_wasm.Protocol.{ProtocolError}
use fipa_wasm.Protocol.Machine.Laws.{IsLawful}
use fipa_wasm.Protocol.Machine.Conversation.{Arrivals, run, accepted}
use fipa_wasm.Protocol.Factory.{Boxed, create_state_machine}
use fipa_wasm.Protocol.Factory.Conversations.{Starts, create_state_machine-Starts}
use fipa_wasm.Actor.{Runtime, AgentActor}
use fipa_wasm.Actor.Delivery.{Ambient, process_mailbox}
use fipa_wasm.Actor.Delivery.Conversations.{hold, arrivals_to, process_mailbox-delivers}
use fipa_wasm.Actor.Lifecycle.{
  is_running, run_answer, tick, deliver, queue, refusal, keep, start_conversation,
}

-- What an actor is told: a message is delivered, a tick passes, a conversation is started. A tick
-- brings its readings of the surroundings, a start the two UUIDs and the time.
pub data Event : Type 0 where
  delivery : AclMessage → Event
  passing : (ℕ → Ambient) → Event
  start : String → String → ℤ → ProtocolType → Event

module _ (h : HashOrder) (w : Runtime) where
  abbrev pub perform : AgentActor w → Event → AgentActor w
  perform a (delivery msg) = (deliver w msg a).0
  perform a (passing x) = tick w x a
  perform a (start conv_id uuid now protocol) =
      (start_conversation w h conv_id uuid now protocol a).0

  abbrev pub live : AgentActor w → List Event → AgentActor w
  live a [] = a
  live a (e ∷ es) = live (perform a e) es

  -- No conversation is started under the identifier.
  abbrev pub NotReused : String → List Event → Type 0
  NotReused id [] = Unit {0}
  NotReused id (start conv_id uuid now protocol ∷ es) = (conv_id =s= id ≡ false) × NotReused id es
  NotReused id (e ∷ es) = NotReused id es

  -- What the ticks of a running actor take from its queue for a conversation.
  abbrev pub taken : String → AgentActor w → Event → Arrivals
  taken id a (passing x) = if is_running a.state then arrivals_to id a.verifier x a.mailbox else []
  taken id a e = []

  abbrev pub all_taken : String → AgentActor w → List Event → Arrivals
  all_taken id a [] = []
  all_taken id a (e ∷ es) = taken id a e ++ all_taken id (perform a e) es

  run_answer-conversations :
      (r : Result String Bool) (a : AgentActor w)
      → (run_answer w r a).conversations ≡ a.conversations
  unfolding run_answer
  run_answer-conversations (ok true) a = refl
  run_answer-conversations (ok false) a = refl
  run_answer-conversations (err e) a = refl

  queue-conversations :
      (r : Option ProtocolType) (msg : AclMessage) (a : AgentActor w)
      → (queue w r msg a).0.conversations ≡ a.conversations
  unfolding queue
  queue-conversations none msg a = refl
  queue-conversations (some p) msg a = refl

  keep-conversations :
      (id conv_id : String) (r : Result ProtocolError Boxed) (a : AgentActor w)
      → conv_id =s= id ≡ false
      → get id (keep w conv_id r a).0.conversations ≡ get id a.conversations
  unfolding keep
  keep-conversations id conv_id (err e) a n = refl
  keep-conversations id conv_id (ok c) a n = get-insert conv_id id c a.conversations ∙ rw n

  hold-nil : (o : Option Boxed) → o ≡ Option.map (hold []) o
  unfolding run
  hold-nil none = refl
  hold-nil (some c) = refl

  run-append :
      (c : Boxed) (xs ys : Arrivals)
      → run c.machine (run c.machine c.object xs) ys ≡ run c.machine c.object (xs ++ ys)
  unfolding run
  run-append c [] ys = refl
  run-append c ((now, msg) ∷ xs) ys =
      run-append (record { machine = c.machine; object = (c.machine.process c.object now msg).0 })
        xs ys

  hold-append :
      (xs ys : Arrivals) (o : Option Boxed)
      → Option.map (hold ys) (Option.map (hold xs) o) ≡ Option.map (hold (xs ++ ys)) o
  hold-append xs ys none = refl
  hold-append xs ys (some c) =
      ap (λ (p : c.machine.Self). some (record { machine = c.machine; object = p }))
        (run-append c xs ys)

  tick-conversations :
      (id : String) (x : ℕ → Ambient) (a : AgentActor w)
      → get id (tick w x a).conversations
        ≡ Option.map (hold (taken id a (passing x))) (get id a.conversations)
  unfolding tick
  tick-conversations id x a = elim (Bool-cases (is_running a.state)) [
    | inl e ↦
        let b = process_mailbox w x a in
        let r = w.call_run b.runtime in
        rw e (
          ap (get id) (run_answer-conversations r.1 (record b { runtime = r.0 }))
          ∙ process_mailbox-delivers w id x a)
    | inr n ↦ rw n (hold-nil (get id a.conversations))
  ]

  perform-conversations :
      (id : String) (e : Event) (a : AgentActor w)
      → NotReused id (e ∷ [])
      → get id (perform a e).conversations
        ≡ Option.map (hold (taken id a e)) (get id a.conversations)
  unfolding deliver start_conversation
  perform-conversations id (delivery msg) a n =
      ap (get id)
        (queue-conversations (refusal a.capabilities.allowed_protocols msg.protocol) msg a)
      ∙ hold-nil (get id a.conversations)
  perform-conversations id (passing x) a n = tick-conversations id x a
  perform-conversations id (start conv_id uuid now protocol) a n =
      keep-conversations id conv_id (create_state_machine h uuid now protocol) a n.0
      ∙ hold-nil (get id a.conversations)

  reused_head :
      (id : String) (e : Event) (es : List Event)
      → NotReused id (e ∷ es)
      → NotReused id (e ∷ []) × NotReused id es
  reused_head id (delivery msg) es n = (tt, n)
  reused_head id (passing x) es n = (tt, n)
  reused_head id (start conv_id uuid now protocol) es n = ((n.0, tt), n.1)

  -- Over an actor's life each conversation that it holds takes what the ticks give it, as long as its
  -- identifier is not drawn again.
  pub live-all_taken :
      (id : String) (es : List Event) (a : AgentActor w)
      → NotReused id es
      → get id (live a es).conversations
        ≡ Option.map (hold (all_taken id a es)) (get id a.conversations)
  live-all_taken id [] a n = hold-nil (get id a.conversations)
  live-all_taken id (e ∷ es) a n =
      let ns = reused_head id e es n in
      live-all_taken id es (perform a e) ns.1
      ∙ ap (Option.map (hold (all_taken id (perform a e) es))) (perform-conversations id e a ns.0)
      ∙ hold-append (taken id a e) (all_taken id (perform a e) es) (get id a.conversations)

  keep-found :
      (conv_id : String) (r : Result ProtocolError Boxed) (b : Boxed) (a : AgentActor w)
      → r ≡ ok b
      → get conv_id (keep w conv_id r a).0.conversations ≡ some b
  unfolding keep
  keep-found conv_id r b a e =
      rw e (get-insert conv_id conv_id b a.conversations ∙ rw ((eq_iff conv_id conv_id).1 refl))

  -- After a start that the protocol allows, and any life in which the identifier is not drawn again, the
  -- actor holds under it a lawful machine whose history is what the ticks gave it and it took, in order.
  pub started_conversation-history :
      (conv_id uuid : String) (now : ℤ) (protocol : ProtocolType) (b : Boxed) (es : List Event)
      (a : AgentActor w)
      → create_state_machine h uuid now protocol ≡ ok b
      → NotReused conv_id es
      → let s = perform a (start conv_id uuid now protocol) in
        let arrivals = all_taken conv_id s es in
        (get conv_id (live s es).conversations ≡ some (hold arrivals b))
        × IsLawful b.machine
        × (b.machine.message_history (hold arrivals b).object
            ≡ accepted b.machine b.object arrivals)
  unfolding start_conversation
  started_conversation-history conv_id uuid now protocol b es a c n =
      let s = perform a (start conv_id uuid now protocol) in
      let arrivals = all_taken conv_id s es in
      let st =
        subst (Starts protocol arrivals) c
          (create_state_machine-Starts h uuid now protocol arrivals) in
      (
        live-all_taken conv_id es s n
            ∙ ap (Option.map (hold arrivals))
                (keep-found conv_id (create_state_machine h uuid now protocol) b a c),
        st.2.0,
        st.2.2,
      )
