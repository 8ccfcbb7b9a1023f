-- ===== src/Protocol/Machine/Conversation.antt =====
-- A conversation: messages handed to one state machine in their order of arrival, refused ones too.
use fipa_wasm.Base.{◌≡◌, sym, ◌∙◌, List, [], ◌∷◌, ◌++◌, append_assoc, append-nil, inl, inr}
use fipa_wasm.Base.Int.{ℤ}
use fipa_wasm.Base.Result.{Result, ok, err, Result-cases}
use fipa_wasm.Acl.{AclMessage}
use fipa_wasm.Protocol.{ProtocolError}
use fipa_wasm.Protocol.Machine.{StateMachine}
use fipa_wasm.Protocol.Machine.Laws.{IsLawful}

abbrev pub Arrivals : Type 0
Arrivals = List (ℤ × AclMessage)

module _ (m : StateMachine) where
  unfoldable pub run : m.Self → Arrivals → m.Self
  run p [] = p
  run p ((now, msg) ∷ rest) = run (m.process p now msg).0 rest

  abbrev pub if_ok : Result ProtocolError (Unit {0}) → AclMessage → List AclMessage
  if_ok (ok _) msg = msg ∷ []
  if_ok (err e) msg = []

  -- The messages that `validate` takes when their turn comes.
  pub accepted : m.Self → Arrivals → List AclMessage
  accepted p [] = []
  accepted p ((now, msg) ∷ rest) =
      if_ok (m.validate p msg) msg ++ accepted (m.process p now msg).0 rest

  -- What every step keeps holds after any conversation.
  pub run_keeps {κ} :
      (P : m.Self → Type κ)
      → ((p : m.Self) (now : ℤ) (msg : AclMessage) → P p → P (m.process p now msg).0)
      → (p : m.Self) (arrivals : Arrivals) → P p
      → P (run p arrivals)
  unfolding run
  run_keeps P step p [] h = h
  run_keeps P step p ((now, msg) ∷ rest) h =
      run_keeps P step (m.process p now msg).0 rest (step p now msg h)

  history-process :
      IsLawful m
      → (p : m.Self) (now : ℤ) (msg : AclMessage)
      → m.message_history (m.process p now msg).0
        ≡ m.message_history p ++ if_ok (m.validate p msg) msg
  history-process lawful p now msg = elim (Result-cases (m.validate p msg)) [
    | inl (tt, v) ↦ rw v (lawful.records p now msg v)
    | inr (e, v) ↦ rw (v, lawful.refuses p now msg e v) (sym (append-nil (m.message_history p)))
  ]

  -- The history of a lawful machine is what it was given and took, each message once and in order.
  pub history-run :
      IsLawful m
      → (p : m.Self) (arrivals : Arrivals)
      → m.message_history (run p arrivals) ≡ m.message_history p ++ accepted p arrivals
  unfolding run accepted
  history-run lawful p [] = sym (append-nil (m.message_history p))
  history-run lawful p ((now, msg) ∷ rest) =
      history-run lawful (m.process p now msg).0 rest
      ∙ rw (history-process lawful p now msg) (append_assoc (m.message_history p) _ _)
