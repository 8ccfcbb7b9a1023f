-- ===== src/Actor/Delivery/Boundary.antt =====
-- The content verifier as a boundary.
use fipa_wasm.Base.{
  String, ℕ, ◌≡◌, refl, ◌∙◌, ap, subst, List, [], ◌∷◌, ◌++◌, some, append_assoc, append-nil, sym,
  length,
}
use fipa_wasm.Base.Result.{err}
use fipa_wasm.Acl.{AclMessage, try_from, as_i32, not_understood}
use fipa_wasm.Protocol.{to_list}
use fipa_wasm.Actor.{Addr, Request, deliver_message, Runtime, Verifier, AgentActor, next_u64}
use fipa_wasm.Actor.Delivery.{
  Ambient, handle_acl_message, rejection, admit, send_message, send_by, absorb, take_next,
  process_next, rounds, process_mailbox,
}

-- The reply goes back to the sender of the message, in its conversation, and says not-understood.
pub record IsReply (name : String) (msg reply : AclMessage) : Type 0 where
  pub understood : try_from reply.performative ≡ some not_understood
  pub receivers : reply.receivers ≡ to_list msg.sender
  pub sender : reply.sender ≡ some (record { name = name; addresses = []; resolvers = [] })
  pub conversation : reply.conversation_id ≡ msg.conversation_id
  pub protocol : reply.protocol ≡ msg.protocol
  pub answered : reply.in_reply_to ≡ msg.reply_with

-- One reply for each message, in order, by way of the supervisor.
abbrev pub Replies : Addr → String → List AclMessage → List Request → Type 0
Replies supervisor name [] [] = Unit {0}
Replies supervisor name (msg ∷ ms) (deliver_message to reply ∷ qs) =
    (to ≡ supervisor) × IsReply name msg reply × Replies supervisor name ms qs
Replies supervisor name ms qs = ⊥

-- The verifier rejects every one of the messages.
abbrev pub Rejects : Verifier → List AclMessage → Type 0
Rejects verifier [] = Unit {0}
Rejects verifier (msg ∷ ms) =
    ((reason : String) × (verifier msg ≡ err reason)) × Rejects verifier ms

rejection-IsReply :
    (uuid : String) (msg : AclMessage) (name : String) → IsReply name msg (rejection uuid msg name)
unfolding try_from as_i32
rejection-IsReply uuid msg name = record {
  understood = refl;
  receivers = refl;
  sender = refl;
  conversation = refl;
  protocol = refl;
  answered = refl;
}

module _ (w : Runtime) where
  -- An actor after it has answered a message.
  abbrev replied : Ambient → AclMessage → List AclMessage → Addr → AgentActor w → AgentActor w
  replied x msg rest supervisor a = record a {
    mailbox = rest;
    stats = record a.stats {
      messages_received = next_u64 a.stats.messages_received;
      messages_sent = next_u64 a.stats.messages_sent;
    };
    requests = a.requests ++ deliver_message supervisor (rejection x.uuid msg a.agent_id.name) ∷ [];
  }

  take_next-replied :
      (x : Ambient) (msg : AclMessage) (rest : List AclMessage) (a : AgentActor w)
      (supervisor : Addr) (verifier : Verifier) (reason : String)
      → a.supervisor ≡ some supervisor
      → a.verifier ≡ some verifier
      → verifier msg ≡ err reason
      → take_next w x (msg ∷ rest) a ≡ replied x msg rest supervisor a
  unfolding take_next handle_acl_message admit send_message send_by absorb
  take_next-replied x msg rest a supervisor verifier reason s v e = rw (v, e, s) refl

  abbrev pub IsIsolated : Addr → List AclMessage → AgentActor w → AgentActor w → Type 1
  IsIsolated supervisor ms a b =
      (b.runtime ≡ a.runtime)
      × (b.conversations ≡ a.conversations)
      × (b.mailbox ≡ [])
      × ((qs : List Request) × (b.requests ≡ a.requests ++ qs)
          × Replies supervisor a.agent_id.name ms qs)

  rounds-IsIsolated :
      (x : ℕ → Ambient) (ms : List AclMessage) (a : AgentActor w) (supervisor : Addr)
      (verifier : Verifier)
      → a.mailbox ≡ ms
      → a.supervisor ≡ some supervisor
      → a.verifier ≡ some verifier
      → Rejects verifier ms
      → IsIsolated supervisor ms a (rounds w x (length ms) a)
  unfolding rounds process_next
  rounds-IsIsolated x [] a supervisor verifier m s v r =
      (refl, refl, m, ([], sym (append-nil a.requests), tt))
  rounds-IsIsolated x (msg ∷ rest) a supervisor verifier m s v r =
      let y = x (length rest) in
      let c = replied y msg rest supervisor a in
      let q = rounds-IsIsolated x rest c supervisor verifier refl s v r.1 in
      let reply = deliver_message supervisor (rejection y.uuid msg a.agent_id.name) in
      subst
        (λ (d : AgentActor w). IsIsolated supervisor (msg ∷ rest) a (rounds w x (length rest) d))
        (sym (
          ap (λ ms. take_next w y ms a) m
          ∙ take_next-replied y msg rest a supervisor verifier r.0.0 s v r.0.1))
        (
          q.0,
          q.1,
          q.2,
          (
            reply ∷ q.3.0,
            q.3.1 ∙ append_assoc a.requests (reply ∷ []) q.3.0,
            (refl, rejection-IsReply y.uuid msg a.agent_id.name, q.3.2),
          ),
        )

-- A tick's loop over a queue of which the verifier rejects every message empties the queue, reaches
-- neither the WASM module nor a conversation, and sends through the supervisor one reply to each message,
-- in order: not-understood, to the sender of the message, in its conversation and protocol.
pub rejected-IsIsolated :
    (w : Runtime) (x : ℕ → Ambient) (a : AgentActor w) (supervisor : Addr) (verifier : Verifier)
    → a.supervisor ≡ some supervisor
    → a.verifier ≡ some verifier
    → Rejects verifier a.mailbox
    → IsIsolated w supervisor a.mailbox a (process_mailbox w x a)
unfolding process_mailbox
rejected-IsIsolated w x a supervisor verifier s v r =
    rounds-IsIsolated w x a.mailbox a supervisor verifier refl s v r
