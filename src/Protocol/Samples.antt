-- ===== src/Protocol/Samples.antt =====
-- Messages, agents and amounts for the examples.
use fipa_wasm.Base.{
  ℕ, ◌≡◌, refl, ◌+◌, ◌-◌, List, [], map, Option, none, some, Bool, true, false, arith, ltb, leb,
  codes,
}
use fipa_wasm.Base.Int.{ℤ, pos}
use fipa_wasm.Float.{Float, IsIeee}
use fipa_wasm.Acl.{AgentId, AclMessage, Performative, as_i32}
use fipa_wasm.Protocol.Machine.Conversation.{Arrivals}

abbrev pub alice : AgentId
alice = record { name = "alice"; addresses = []; resolvers = [] }

abbrev pub say : Performative → AclMessage
unfolding as_i32
say perf = record {
  message_id = "m1";
  performative = as_i32 perf;
  sender = some alice;
  receivers = [];
  reply_to = none;
  protocol = none;
  conversation_id = none;
  in_reply_to = none;
  reply_with = none;
  reply_by = none;
  language = none;
  encoding = none;
  ontology = none;
  content = codes "ok";
  user_properties = [];
}

abbrev pub now : ℤ
now = pos 7

abbrev pub say_all : List Performative → Arrivals
say_all = map (λ (perf : Performative). (now, say perf))

-- Amounts in cents; `none` is NaN.
abbrev both : (ℕ → ℕ → ℕ) → Option ℕ → Option ℕ → Option ℕ
both op (some a) (some b) = some (op a b)
both op a b = none

abbrev test : (ℕ → ℕ → Bool) → Option ℕ → Option ℕ → Bool
test op (some a) (some b) = op a b
test op a b = false

abbrev pub cents : Float
cents = record {
  F64 = Option ℕ;
  zero = some 0;
  add = both ◌+◌;
  sub = both ◌-◌;
  lt = test ltb;
  le = test leb;
  display = λ x. [];
}

irrefl : (a : Option ℕ) → test ltb a a ≡ false
irrefl none = refl
irrefl (some a) = ground arith

trans : (a b c : Option ℕ) → test ltb a b ≡ true → test ltb b c ≡ true → test ltb a c ≡ true
trans a b c h k = ground arith

none_of_unordered :
    (a : Option ℕ) → ((y : Option ℕ) → (test ltb a y ≡ false) × (test ltb y a ≡ false)) → a ≡ none
none_of_unordered none u = refl
none_of_unordered (some a) u = absurd (omega (arith, below a (u (some (a + 1))).0))
  where
    below : (n : ℕ) → ltb n (n + 1) ≡ false → ⊥
    below n h = ground arith

pub cents-IsIeee : IsIeee cents
cents-IsIeee = record {
  lt_irrefl = irrefl;
  lt_trans = trans;
  add-unordered = λ a b u y. rw (none_of_unordered a u) (nan_add b y);
}
  where
    nan_add :
        (b y : Option ℕ)
        → (test ltb (both ◌+◌ none b) y ≡ false) × (test ltb y (both ◌+◌ none b) ≡ false)
    nan_add b y = ground arith

pub nan_unordered : (y : Option ℕ) → (cents.lt none y ≡ false) × (cents.lt y none ≡ false)
nan_unordered y = ground arith
