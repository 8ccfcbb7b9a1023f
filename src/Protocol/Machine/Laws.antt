-- ===== src/Protocol/Machine/Laws.antt =====
-- What every implementation of the trait keeps, and how an implementation shows it.
use fipa_wasm.Base.{
  ◌≡◌, sym, ◌∙◌, arith, [], ◌∷◌, ◌++◌, Option, none, some, Bool, true, false, inl, inr,
}
use fipa_wasm.Base.Int.{ℤ}
use fipa_wasm.Base.Result.{Result, ok, err, Result-cases, ◌>>=◌}
use fipa_wasm.Acl.{AclMessage, Performative}
use fipa_wasm.Protocol.{
  ProtocolError, ProcessResult, continue, respond, complete, read_performative,
}
use fipa_wasm.Protocol.Machine.{StateMachine, try}

-- How a conversation stands.
pub data Status : Type 0 where
  running succeeded failed : Status

abbrev pub status_of : Bool → Bool → Status
status_of is_failed true = elim is_failed [ true ↦ failed | false ↦ succeeded ]
status_of is_failed false = running

abbrev pub status : (m : StateMachine) → m.Self → Status
status m p = status_of (m.is_failed p) (m.is_complete p)

-- What the caller of `process` is told.
abbrev pub verdict : Result ProtocolError ProcessResult → Option Status
verdict (ok continue) = some running
verdict (ok (respond msg)) = some running
verdict (ok (complete d)) = some succeeded
verdict (ok (ProcessResult.failed reason)) = some failed
verdict (err e) = none

pub record IsLawful (m : StateMachine) : Type 0 where
  -- a message that `validate` refuses leaves the object as it was, and is answered by that error
  pub refuses :
      (p : m.Self) (now : ℤ) (msg : AclMessage) (e : ProtocolError)
      → m.validate p msg ≡ err e
      → m.process p now msg ≡ (p, err e)
  -- any other message is added at the end of the history
  pub records :
      (p : m.Self) (now : ℤ) (msg : AclMessage)
      → m.validate p msg ≡ ok tt
      → m.message_history (m.process p now msg).0 ≡ m.message_history p ++ msg ∷ []
  -- and the answer says how the conversation then stands
  pub reports :
      (p : m.Self) (now : ℤ) (msg : AclMessage)
      → m.validate p msg ≡ ok tt
      → verdict (m.process p now msg).1 ≡ some (status m (m.process p now msg).0)
  pub fails_complete : (p : m.Self) → m.is_failed p ≡ true → m.is_complete p ≡ true

-- The shape that `validate` and `process` have in every implementation.
module _ {S : Type 0} (m : StateMachine)
    (transition : m.Self → Performative → Result ProtocolError S)
    (advance : m.Self
      → ℤ
      → AclMessage
      → Performative
      → S
      → m.Self × Result ProtocolError ProcessResult) where
  abbrev pub validate_by : m.Self → AclMessage → Result ProtocolError (Unit {0})
  validate_by p msg = do perf ← read_performative msg; new_state ← transition p perf; ok tt

  abbrev pub process_by : m.Self → ℤ → AclMessage → m.Self × Result ProtocolError ProcessResult
  process_by p now msg =
      try p (read_performative msg)
        λ perf. try p (transition p perf) λ new_state. advance p now msg perf new_state

  abbrev pub Recorded : Type 0
  Recorded =
      (p : m.Self) (now : ℤ) (msg : AclMessage) (perf : Performative) (s : S)
      → transition p perf ≡ ok s
      → m.message_history (advance p now msg perf s).0 ≡ m.message_history p ++ msg ∷ []

  abbrev pub Reported : Type 0
  Reported =
      (p : m.Self) (now : ℤ) (msg : AclMessage) (perf : Performative) (s : S)
      → transition p perf ≡ ok s
      → verdict (advance p now msg perf s).1 ≡ some (status m (advance p now msg perf s).0)

  refuses_by :
      (p : m.Self) (now : ℤ) (msg : AclMessage) (e : ProtocolError)
      → validate_by p msg ≡ err e
      → process_by p now msg ≡ (p, err e)
  refuses_by p now msg e h = ground arith

  -- A message that `validate` takes is one that `process` advances by.
  accepted_by {κ} :
      (P : m.Self × Result ProtocolError ProcessResult → Type κ) (p : m.Self) (now : ℤ)
      (msg : AclMessage)
      → ((perf : Performative) (s : S) → transition p perf ≡ ok s → P (advance p now msg perf s))
      → validate_by p msg ≡ ok tt
      → P (process_by p now msg)
  accepted_by P p now msg k h = elim (Result-cases (read_performative msg)) [
    | inl (perf, r) ↦ elim (Result-cases (transition p perf)) [
      | inl (s, t) ↦ rw r (rw t (k perf s t))
      | inr (e, t) ↦ absurd (cc)
    ]
    | inr (e, r) ↦ absurd (cc)
  ]

  -- What `process` leaves: the object as it was, or what `advance` makes of it.
  pub step_by {κ} :
      (P : m.Self → Type κ) (p : m.Self) (now : ℤ) (msg : AclMessage)
      → P p
      → ((perf : Performative) (s : S)
          → read_performative msg ≡ ok perf
          → transition p perf ≡ ok s
          → P (advance p now msg perf s).0)
      → P (process_by p now msg).0
  step_by P p now msg same step = elim (Result-cases (read_performative msg)) [
    | inl (perf, r) ↦ elim (Result-cases (transition p perf)) [
      | inl (s, t) ↦ rw r (rw t (step perf s r t))
      | inr (e, t) ↦ rw r (rw t same)
    ]
    | inr (e, r) ↦ rw r same
  ]

  -- An implementation of that shape is lawful if its `advance` records and reports.
  pub lawful_by :
      ((p : m.Self) (msg : AclMessage) → m.validate p msg ≡ validate_by p msg)
      → ((p : m.Self) (now : ℤ) (msg : AclMessage) → m.process p now msg ≡ process_by p now msg)
      → Recorded
      → Reported
      → ((p : m.Self) → m.is_failed p ≡ true → m.is_complete p ≡ true)
      → IsLawful m
  lawful_by v w recorded reported f = record {
    refuses = λ p now msg e h. rw (w p now msg) (refuses_by p now msg e (sym (v p msg) ∙ h));
    records = λ p now msg h. rw (w p now msg) (
        accepted_by (λ r. m.message_history r.0 ≡ m.message_history p ++ msg ∷ []) p now msg
          (recorded p now msg) (sym (v p msg) ∙ h));
    reports = λ p now msg h. rw (w p now msg) (
        accepted_by (λ r. verdict r.1 ≡ some (status m r.0)) p now msg (reported p now msg)
          (sym (v p msg) ∙ h));
    fails_complete = f;
  }
