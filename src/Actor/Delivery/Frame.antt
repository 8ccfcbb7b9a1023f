-- ===== src/Actor/Delivery/Frame.antt =====
-- What sending, flushing and reporting leave as it was.
use fipa_wasm.Base.{String, ◌≡◌, refl, ◌∙◌, List, [], ◌∷◌, Option, none, some}
use fipa_wasm.Base.Result.{Result, ok, err}
use fipa_wasm.Acl.{AclMessage}
use fipa_wasm.Protocol.{ProcessResult, continue, respond, complete}
use fipa_wasm.Actor.{Addr, Decoded, OutboundIntent, Packager, Runtime, AgentActor}
use fipa_wasm.Actor.Delivery.{
  send_by, send_message, send_packaged, send_intents, flush_by, flush_outbound,
  handle_protocol_result, configure, configured,
}

module _ (w : Runtime) where
  -- The second actor holds the conversations, the queue and the verifier of the first, and has
  -- received as many messages.
  abbrev pub IsQuiet : AgentActor w → AgentActor w → Type 1
  IsQuiet a b =
      (b.conversations ≡ a.conversations)
      × (b.mailbox ≡ a.mailbox)
      × (b.verifier ≡ a.verifier)
      × (b.stats.messages_received ≡ a.stats.messages_received)

  pub IsQuiet-trans : (a b c : AgentActor w) → IsQuiet a b → IsQuiet b c → IsQuiet a c
  IsQuiet-trans a b c p q = (q.0 ∙ p.0, q.1 ∙ p.1, q.2 ∙ p.2, q.3 ∙ p.3)

  pub send_message-IsQuiet :
      (msg : AclMessage) (a : AgentActor w) → IsQuiet a (send_message w msg a).0
  unfolding send_message send_by
  send_message-IsQuiet msg a = branches a.supervisor a.network
    where
      branches : (s n : Option Addr) → IsQuiet a (send_by w s n msg a)
      branches (some s) n = (refl, refl, refl, refl)
      branches none (some n) = (refl, refl, refl, refl)
      branches none none = (refl, refl, refl, refl)

  send_packaged-IsQuiet :
      (r : Result String AclMessage) (a : AgentActor w) → IsQuiet a (send_packaged w r a)
  unfolding send_packaged
  send_packaged-IsQuiet (ok msg) a = send_message-IsQuiet msg a
  send_packaged-IsQuiet (err e) a = (refl, refl, refl, refl)

  send_intents-IsQuiet :
      (p : Packager) (is : List OutboundIntent) (a : AgentActor w)
      → IsQuiet a (send_intents w p is a)
  unfolding send_intents
  send_intents-IsQuiet p [] a = (refl, refl, refl, refl)
  send_intents-IsQuiet p (i ∷ is) a =
      let b = send_packaged w (p a.agent_id.name i.receiver i.unl i.body) a in
      IsQuiet-trans a b (send_intents w p is b) (send_packaged-IsQuiet _ a)
        (send_intents-IsQuiet p is b)

  pub flush_outbound-IsQuiet : (a : AgentActor w) → IsQuiet a (flush_outbound w a)
  unfolding flush_outbound flush_by
  flush_outbound-IsQuiet a = branches a.outbound
    where
      branches : (o : Option Packager) → IsQuiet a (flush_by w o a)
      branches none = (refl, refl, refl, refl)
      branches (some p) =
          let r = w.take_unl_sends a.runtime in
          send_intents-IsQuiet p r.1 (record a { runtime = r.0 })

  configured-IsQuiet :
      (r : Result String (Unit {0})) (a : AgentActor w) → IsQuiet a (configured w r a)
  unfolding configured
  configured-IsQuiet (ok u) a = (refl, refl, refl, refl)
  configured-IsQuiet (err e) a = (refl, refl, refl, refl)

  pub configure-IsQuiet : (d : Decoded) (a : AgentActor w) → IsQuiet a (configure w d a)
  unfolding configure
  configure-IsQuiet d a =
      let r = w.call_config a.runtime d.unl d.body in
      configured-IsQuiet r.1 (record a { runtime = r.0 })

  pub handle_protocol_result-IsQuiet :
      (r : ProcessResult) (a : AgentActor w) → IsQuiet a (handle_protocol_result w r a).0
  unfolding handle_protocol_result
  handle_protocol_result-IsQuiet continue a = (refl, refl, refl, refl)
  handle_protocol_result-IsQuiet (respond msg) a = send_message-IsQuiet msg a
  handle_protocol_result-IsQuiet (complete d) a = (refl, refl, refl, refl)
  handle_protocol_result-IsQuiet (ProcessResult.failed e) a = (refl, refl, refl, refl)
