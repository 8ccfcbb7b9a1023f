-- ===== src/Actor/Delivery/Conversations.antt =====
-- What a tick does to the conversations of an actor and to its queue.
use mathlib.Core.Option
use fipa_wasm.Base.{
  ℕ, zero, suc, ◌+◌, ◌%◌, ◌^◌, ◌<◌, String, ◌≡◌, refl, sym, ap, ◌∙◌, List, [], ◌∷◌, Option, none,
  some, Bool, true, false, ◌=s=◌, eq_iff, if◌then◌else◌, length, inl, inr, arith, Bool-cases,
}
use fipa_wasm.Base.Int.{ℤ}
use fipa_wasm.Base.Dict.{Dict, get, insert, get-insert}
use fipa_wasm.Base.Result.{Result, ok, err}
use fipa_wasm.Acl.{AclMessage}
use fipa_wasm.Protocol.{ProtocolError, ProcessResult}
use fipa_wasm.Protocol.Machine.{try}
use fipa_wasm.Protocol.Machine.Conversation.{Arrivals, run}
use fipa_wasm.Protocol.Factory.{Boxed}
use fipa_wasm.Actor.{AgentError, Decoded, Runtime, Verifier, AgentActor, next_u64}
use fipa_wasm.Actor.Delivery.{
  Ambient, from_protocol, raw_answer, handle_protocol_result, converse, deliver_raw, route_to,
  route, admit, sanitized, handle_acl_message, absorb, take_next, process_next, rounds,
  process_mailbox, configure, flush_outbound, rejection,
}
use fipa_wasm.Actor.Delivery.Frame.{
  IsQuiet, IsQuiet-trans, handle_protocol_result-IsQuiet, send_message-IsQuiet,
  flush_outbound-IsQuiet, configure-IsQuiet,
}

-- A conversation after one more message, and after several.
abbrev pub feed : ℤ → AclMessage → Boxed → Boxed
feed now msg c = record { machine = c.machine; object = (c.machine.process c.object now msg).0 }

abbrev pub hold : Arrivals → Boxed → Boxed
hold arrivals c = record { machine = c.machine; object = run c.machine c.object arrivals }

-- The conversation that a message is given to, by what the verifier says of the message.
abbrev pub heard : Result String (Option Decoded) → AclMessage → Option String
heard (ok none) msg = msg.conversation_id
heard r msg = none

abbrev pub is_addressed : String → Option String → Bool
is_addressed id none = false
is_addressed id (some j) = j =s= id

-- The messages of the queue for one conversation, with the time at which each is taken.
abbrev pub arrivals_to : String → Option Verifier → (ℕ → Ambient) → List AclMessage → Arrivals
arrivals_to id v x [] = []
arrivals_to id v x (msg ∷ rest) =
    let later = arrivals_to id v x rest in
    if is_addressed id (heard (sanitized v msg) msg)
    then ((x (length rest)).now, msg) ∷ later
    else later

abbrev reached : ℤ → AclMessage → Bool → Option Boxed → Option Boxed
reached now msg b o = if b then Option.map (feed now msg) o else o

abbrev advanced : ℕ → ℕ → ℕ
advanced zero r = r
advanced (suc n) r = advanced n (next_u64 r)

reached-none :
    (now : ℤ) (msg : AclMessage) (j id : String) (m : Dict Boxed)
    → get j m ≡ none
    → reached now msg (j =s= id) (get id m) ≡ get id m
reached-none now msg j id m g = elim (Bool-cases (j =s= id)) [
  | inl e ↦ rw (e, sym ((eq_iff j id).0 e), g)
  | inr n ↦ rw n
]

reached-some :
    (now : ℤ) (msg : AclMessage) (j id : String) (c : Boxed) (m : Dict Boxed)
    → get j m ≡ some c
    → reached now msg (j =s= id) (get id m) ≡ (if j =s= id then some (feed now msg c) else get id m)
reached-some now msg j id c m g = elim (Bool-cases (j =s= id)) [
  | inl e ↦ rw (e, sym ((eq_iff j id).0 e), g)
  | inr n ↦ rw n
]

advanced_lem : (n r : ℕ) → r < 2 ^ 64 → advanced n r ≡ (r + n) % 2 ^ 64
advanced_lem zero r h = omega arith
advanced_lem (suc n) r h = advanced_lem n (next_u64 r) (omega arith) ∙ omega arith

module _ (w : Runtime) (id : String) where
  abbrev Leaves : Option Boxed → AgentActor w → AgentActor w → Type 1
  Leaves o a b =
      (get id b.conversations ≡ o)
      × (b.mailbox ≡ a.mailbox)
      × (b.verifier ≡ a.verifier)
      × (b.stats.messages_received ≡ a.stats.messages_received)

  reported :
      (r : Result ProtocolError ProcessResult) (b : AgentActor w)
      → IsQuiet w b (try b (from_protocol r) λ result. handle_protocol_result w result b).0
  reported (ok result) b = handle_protocol_result-IsQuiet w result b
  reported (err e) b = (refl, refl, refl, refl)

  converse-Leaves :
      (now : ℤ) (msg : AclMessage) (j : String) (c : Boxed) (a : AgentActor w)
      → Leaves
          (if j =s= id then some (feed now msg c) else get id a.conversations)
          a
          (converse w now msg j c a).0
  unfolding converse
  converse-Leaves now msg j c a =
      let b = record a { conversations = insert j (feed now msg c) a.conversations } in
      let q = reported (c.machine.process c.object now msg).1 b in
      (ap (get id) q.0 ∙ get-insert j id (feed now msg c) a.conversations, q.1, q.2, q.3)

  raw_answer-IsQuiet :
      (r : Result String Bool) (a : AgentActor w) → IsQuiet w a (raw_answer w r a).0
  unfolding raw_answer
  raw_answer-IsQuiet (ok handled) a = (refl, refl, refl, refl)
  raw_answer-IsQuiet (err e) a = (refl, refl, refl, refl)

  deliver_raw-Leaves :
      (msg : AclMessage) (a : AgentActor w)
      → Leaves (get id a.conversations) a (deliver_raw w msg a).0
  unfolding deliver_raw
  deliver_raw-Leaves msg a =
      let r = w.handle_message a.runtime msg in
      let b = record a { runtime = r.0 } in
      let q = raw_answer-IsQuiet r.1 b in (ap (get id) q.0, q.1, q.2, q.3)

  route_to-Leaves :
      (now : ℤ) (msg : AclMessage) (j : String) (o : Option Boxed) (a : AgentActor w)
      → get j a.conversations ≡ o
      → Leaves (reached now msg (j =s= id) (get id a.conversations)) a (route_to w now msg j o a).0
  unfolding route_to
  route_to-Leaves now msg j none a g =
      let q = deliver_raw-Leaves msg a in
      (q.0 ∙ sym (reached-none now msg j id a.conversations g), q.1, q.2, q.3)
  route_to-Leaves now msg j (some c) a g =
      let q = converse-Leaves now msg j c a in
      (q.0 ∙ sym (reached-some now msg j id c a.conversations g), q.1, q.2, q.3)

  route-Leaves :
      (now : ℤ) (msg : AclMessage) (conv : Option String) (a : AgentActor w)
      → Leaves
          (reached now msg (is_addressed id conv) (get id a.conversations))
          a
          (route w now msg conv a).0
  unfolding route
  route-Leaves now msg none a = deliver_raw-Leaves msg a
  route-Leaves now msg (some j) a = route_to-Leaves now msg j (get j a.conversations) a refl

  admit-Leaves :
      (x : Ambient) (msg : AclMessage) (r : Result String (Option Decoded)) (a : AgentActor w)
      → Leaves
          (reached x.now msg (is_addressed id (heard r msg)) (get id a.conversations))
          a
          (admit w x msg r a).0
  unfolding admit
  admit-Leaves x msg (err reason) a =
      let q = send_message-IsQuiet w (rejection x.uuid msg a.agent_id.name) a in
      (ap (get id) q.0, q.1, q.2, q.3)
  admit-Leaves x msg (ok (some d)) a =
      let b = configure w d a in
      let q =
        IsQuiet-trans w a b (flush_outbound w b) (configure-IsQuiet w d a)
          (flush_outbound-IsQuiet w b) in
      (ap (get id) q.0, q.1, q.2, q.3)
  admit-Leaves x msg (ok none) a = route-Leaves x.now msg msg.conversation_id a

  absorb-IsQuiet : (r : AgentActor w × Result AgentError (Unit {0})) → IsQuiet w r.0 (absorb w r)
  unfolding absorb
  absorb-IsQuiet (a, ok u) = (refl, refl, refl, refl)
  absorb-IsQuiet (a, err e) = (refl, refl, refl, refl)

  -- One round: the message is off the queue and counted, and its conversation has taken it.
  take_next-takes :
      (x : Ambient) (msg : AclMessage) (rest : List AclMessage) (a : AgentActor w)
      → let b = take_next w x (msg ∷ rest) a in
        (get id b.conversations
          ≡ reached x.now msg
              (is_addressed id (heard (sanitized a.verifier msg) msg))
              (get id a.conversations))
        × (b.mailbox ≡ rest)
        × (b.verifier ≡ a.verifier)
        × (b.stats.messages_received ≡ next_u64 a.stats.messages_received)
  unfolding take_next handle_acl_message
  take_next-takes x msg rest a =
      let c = record a {
        mailbox = rest;
        stats = record a.stats { messages_received = next_u64 a.stats.messages_received };
      } in
      let r = admit w x msg (sanitized a.verifier msg) c in
      let q = absorb-IsQuiet r in
      let p = admit-Leaves x msg (sanitized a.verifier msg) c in
      (ap (get id) q.0 ∙ p.0, q.1 ∙ p.1, q.2 ∙ p.2, q.3 ∙ p.3)

  hold-nil : (o : Option Boxed) → Option.map (hold []) o ≡ o
  unfolding run
  hold-nil none = refl
  hold-nil (some c) = refl

  hold-feed :
      (now : ℤ) (msg : AclMessage) (rest : Arrivals) (b : Bool) (o : Option Boxed)
      → Option.map (hold rest) (reached now msg b o)
        ≡ Option.map (hold (if b then (now, msg) ∷ rest else rest)) o
  unfolding run
  hold-feed now msg rest true none = refl
  hold-feed now msg rest true (some c) = refl
  hold-feed now msg rest false o = refl

  rounds-takes :
      (x : ℕ → Ambient) (ms : List AclMessage) (a : AgentActor w)
      → a.mailbox ≡ ms
      → let b = rounds w x (length ms) a in
        (get id b.conversations
          ≡ Option.map (hold (arrivals_to id a.verifier x ms)) (get id a.conversations))
        × (b.mailbox ≡ [])
        × (b.stats.messages_received ≡ advanced (length ms) a.stats.messages_received)
  unfolding rounds process_next
  rounds-takes x [] a e = (sym (hold-nil (get id a.conversations)), e, refl)
  rounds-takes x (msg ∷ rest) a e =
      let b = take_next w (x (length rest)) (msg ∷ rest) a in
      let t = take_next-takes (x (length rest)) msg rest a in
      let q = rounds-takes x rest b t.1 in
      rw e (
        q.0
            ∙ ap (λ v. Option.map (hold (arrivals_to id v x rest)) (get id b.conversations)) t.2
            ∙ ap (Option.map (hold (arrivals_to id a.verifier x rest))) t.0
            ∙ hold-feed (x (length rest)).now msg (arrivals_to id a.verifier x rest)
                (is_addressed id (heard (sanitized a.verifier msg) msg)) (get id a.conversations),
        q.1,
        q.2 ∙ ap (advanced (length rest)) t.3,
      )

-- A tick gives each conversation exactly the messages of the queue that name it and that the verifier
-- passes on undecoded, in the order of the queue, and no other; a conversation that the actor does not
-- hold is not begun, and none is dropped.
pub process_mailbox-delivers :
    (w : Runtime) (id : String) (x : ℕ → Ambient) (a : AgentActor w)
    → get id (process_mailbox w x a).conversations
      ≡ Option.map (hold (arrivals_to id a.verifier x a.mailbox)) (get id a.conversations)
unfolding process_mailbox
process_mailbox-delivers w id x a = (rounds-takes w id x a.mailbox a refl).0

-- A tick leaves no message in the queue.
pub process_mailbox-mailbox :
    (w : Runtime) (x : ℕ → Ambient) (a : AgentActor w) → (process_mailbox w x a).mailbox ≡ []
unfolding process_mailbox
process_mailbox-mailbox w x a = (rounds-takes w "" x a.mailbox a refl).1

-- The loop over the queue ends with the queue empty, and every message of it is counted, modulo 2^64.
pub process_mailbox-empties :
    (w : Runtime) (x : ℕ → Ambient) (a : AgentActor w)
    → a.stats.messages_received < 2 ^ 64
    → let b = process_mailbox w x a in
      (b.mailbox ≡ [])
      × (b.stats.messages_received ≡ (a.stats.messages_received + length a.mailbox) % 2 ^ 64)
unfolding process_mailbox
process_mailbox-empties w x a h =
    let q = rounds-takes w "" x a.mailbox a refl in
    (q.1, q.2 ∙ advanced_lem (length a.mailbox) a.stats.messages_received h)
