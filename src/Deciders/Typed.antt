-- ===== src/Deciders/Typed.antt =====
-- Deciders and their parts made of typed functions (deciders.go, lines 71 to 196): `Typed`, its builders, which check
-- the type of a function, and `marshalledFunc`, which calls it by reflection.
pub mod Checked
mod Tests
use swf4go.Prelude.{
  ℕ, zero, suc, String, Bool, true, false, ◌≡◌, refl, Option, none, some, List, [], ◌∷◌, ◌==◌, eqb,
  length, if◌then◌else◌,
}
use swf4go.Prelude.Decimal.{itoa}
use Prim.Native.String.{◌++◌}
use swf4go.Go.{
  GoError, text, Exec, returns, panics, Panic, of_error, of_value, ◌>>=◌, ◌>>◌, index_out_of_range,
  nil_dereference,
}
use swf4go.Protocol.Decision.{Decision}
use swf4go.Protocol.HistoryEvent.{HistoryEvent}
use swf4go.Fsm.Outcome.{Outcome}
use swf4go.Fsm.Context.{Decider, FsmContext}
use swf4go.Deciders.Reflect.{
  GoType, type_string, Value, zero_value, context, event, datum, outcome, decision, decisions,
  truth, Function, Candidate, function, value_of_kind, nil, value_of, call,
}

abbrev pub DecisionFunc {ℓ} : Type ℓ → Type ℓ
DecisionFunc V = FsmContext V → HistoryEvent → Option V → Exec Decision

abbrev pub MultiDecisionFunc {ℓ} : Type ℓ → Type ℓ
MultiDecisionFunc V = FsmContext V → HistoryEvent → Option V → Exec (List Decision)

-- What a StateFunc changes in the data is left to the function that it calls.
abbrev pub StateFunc {ℓ} : Type ℓ → Type ℓ
StateFunc V = FsmContext V → HistoryEvent → Option V → Exec (Unit {0})

abbrev pub PredicateFunc {ℓ} : Type ℓ → Type ℓ
PredicateFunc V = Option V → Exec Bool

not_asserted {ℓ} : {A : Type ℓ} → Exec A
not_asserted = panics (of_error (text "interface conversion"))

-- The loops of typeCheck over the arguments and over the return values.
unfoldable pub types_match : String → ℕ → List String → List GoType → Exec (Unit {0})
unfolding type_string
types_match what i [] types = returns tt
types_match what i (rt ∷ rest) [] = panics index_out_of_range
types_match what i (rt ∷ rest) (t ∷ types) =
    let others = types_match what (suc i) rest types in
    if rt == type_string t
    then others
    else panics (
        of_value
          ("type of " ++ what ++ " " ++ itoa i ++ " was " ++ type_string t ++ ", not " ++ rt))

unfoldable pub type_check {ℓ} :
    {V : Type ℓ} → Candidate V → List String → List String → Exec (Unit {0})
unfolding types_match
type_check nil inputs outputs = panics nil_dereference
type_check (value_of_kind kind) inputs outputs =
    panics (of_value ("kind was " ++ kind ++ ", not Func"))
type_check (function f) inputs outputs =
    if eqb (length inputs) (length f.inputs)
    then (types_match "argument" 0 inputs f.inputs
        >> (if eqb (length outputs) (length f.outputs)
            then types_match "return value" 0 outputs f.outputs
            else panics (
                of_value (
                  "number of return values was "
                  ++ itoa (length f.outputs)
                  ++ ", not "
                  ++ itoa (length outputs)))))
    else panics (
        of_value ("input arity was " ++ itoa (length f.inputs) ++ ", not " ++ itoa (length inputs)))

module _ {ℓ} {V : Type ℓ} where
  -- ret.IsNil and the assertion that ret is an Outcome
  unfoldable pub to_outcome : Value V → Exec (Option (Outcome V))
  unfolding not_asserted
  to_outcome (outcome o) = returns o
  to_outcome v = not_asserted

  unfoldable pub to_decision : Value V → Exec Decision
  unfolding not_asserted
  to_decision (decision d) = returns d
  to_decision v = not_asserted

  unfoldable pub to_decisions : Value V → Exec (List Decision)
  unfolding not_asserted
  to_decisions (decisions ds) = returns ds
  to_decisions v = not_asserted

  unfoldable pub to_bool : Value V → Exec Bool
  unfolding not_asserted
  to_bool (truth b) = returns b
  to_bool v = not_asserted

  -- the element at 0
  abbrev pub first : List (Value V) → Exec (Value V)
  first [] = panics index_out_of_range
  first (v ∷ rest) = returns v

-- `typed` is the value that Typed was given, whose type is that of the data.
module _ {ℓ} {V : Type ℓ} (data_type : V → GoType) (implements : GoType → GoType → Bool) where
  -- reflect.TypeOf(nil) is nil.
  abbrev pub type_arg : Option V → Exec String
  unfolding type_string
  type_arg none = panics nil_dereference
  type_arg (some v) = returns (type_string (data_type v))

  -- m.v.Call
  unfoldable pub call_of : Candidate V → List (Value V) → Exec (List (Value V))
  unfolding call
  call_of (function f) args = call data_type implements f args
  call_of (value_of_kind kind) args =
      panics (of_value "reflect: call of Call on a value that is no Func")
  call_of nil args = panics (of_value "reflect: call of Call on zero Value")

  -- marshalledFunc
  unfoldable pub marshalled_decider : Candidate V → Decider V
  unfolding call_of value_of to_outcome
  marshalled_decider m f h v =
      call_of m (context f ∷ event h ∷ value_of data_type implements v ∷ [])
      >>= first
      >>= to_outcome

  unfoldable pub marshalled_decision_func : Candidate V → DecisionFunc V
  unfolding call_of value_of to_decision
  marshalled_decision_func m f h v =
      call_of m (context f ∷ event h ∷ value_of data_type implements v ∷ [])
      >>= first
      >>= to_decision

  unfoldable pub marshalled_multi_decision_func : Candidate V → MultiDecisionFunc V
  unfolding call_of value_of to_decisions
  marshalled_multi_decision_func m f h v =
      call_of m (context f ∷ event h ∷ value_of data_type implements v ∷ [])
      >>= first
      >>= to_decisions

  unfoldable pub marshalled_state_func : Candidate V → StateFunc V
  unfolding call_of value_of
  marshalled_state_func m f h v =
      call_of m (context f ∷ event h ∷ value_of data_type implements v ∷ []) >> returns tt

  unfoldable pub marshalled_predicate_func : Candidate V → PredicateFunc V
  unfolding call_of value_of to_bool
  marshalled_predicate_func m v =
      call_of m (value_of data_type implements v ∷ []) >>= first >>= to_bool

  -- TypedFuncs
  module _ (typed : Option V) (fn : Candidate V) where
    unfoldable pub typed_decider : Exec (Decider V)
    unfolding type_check marshalled_decider
    typed_decider = do
      arg ← type_arg typed
      _ ← type_check fn ("*swf.FSMContext" ∷ "swf.HistoryEvent" ∷ arg ∷ []) ("swf.Outcome" ∷ [])
      returns (marshalled_decider fn)

    unfoldable pub typed_decision_func : Exec (DecisionFunc V)
    unfolding type_check marshalled_decision_func
    typed_decision_func = do
      arg ← type_arg typed
      _ ← type_check fn ("*swf.FSMContext" ∷ "swf.HistoryEvent" ∷ arg ∷ []) ("swf.Decision" ∷ [])
      returns (marshalled_decision_func fn)

    unfoldable pub typed_multi_decision_func : Exec (MultiDecisionFunc V)
    unfolding type_check marshalled_multi_decision_func
    typed_multi_decision_func = do
      arg ← type_arg typed
      _ ← type_check fn ("*swf.FSMContext" ∷ "swf.HistoryEvent" ∷ arg ∷ []) ("[]swf.Decision" ∷ [])
      returns (marshalled_multi_decision_func fn)

    unfoldable pub typed_state_func : Exec (StateFunc V)
    unfolding type_check marshalled_state_func
    typed_state_func = do
      arg ← type_arg typed
      _ ← type_check fn ("*swf.FSMContext" ∷ "swf.HistoryEvent" ∷ arg ∷ []) []
      returns (marshalled_state_func fn)

    unfoldable pub typed_predicate_func : Exec (PredicateFunc V)
    unfolding type_check marshalled_predicate_func
    typed_predicate_func = do
      arg ← type_arg typed
      _ ← type_check fn (arg ∷ []) ("bool" ∷ [])
      returns (marshalled_predicate_func fn)
