-- ===== src/Deciders/Typed/Tests.antt =====
-- Typed functions over numbers.
use swf4go.Prelude.{ℕ, Bool, true, false, ◌≡◌, refl, ◌⊎◌, Option, none, some, List, [], ◌∷◌}
use swf4go.Prelude.Decimal.{itoa}
use swf4go.Go.{returns, panics, Panic, of_value}
use swf4go.Protocol.Zero.{zero_history_event}
use swf4go.Fsm.Outcome.{Outcome, stay_outcome}
use swf4go.Fsm.Context.{FsmContext, new_fsm_context}
use swf4go.Fsm.Machine.{fsm_serializer}
use swf4go.Fsm.Samples.{counter}
use swf4go.Deciders.Reflect.{
  GoType, named, pointer, slice, basic, swf_type, type_string, same_type, Value, context, event,
  datum, outcome, Function, function, value_of_kind, value_of, type_of, call,
}
use swf4go.Deciders.Typed.{type_check, types_match, call_of, marshalled_decider, typed_decider}
use swf4go.Deciders.Typed.Checked.{typed_decider-runs, typed_decider-nil}

abbrev count_type : ℕ → GoType
count_type n = pointer (named "example.org/counts" "counts" "Count")

abbrev no_methods : GoType → GoType → Bool
no_methods t u = false

abbrev stays : List (Value ℕ) → Option (Outcome ℕ)
stays (c ∷ h ∷ datum v ∷ []) = some (stay_outcome (some v) [])
stays vs = none

abbrev staying : Function ℕ
staying = record {
  inputs = pointer (swf_type "FSMContext") ∷ swf_type "HistoryEvent" ∷ count_type 0 ∷ [];
  outputs = swf_type "Outcome" ∷ [];
  variadic = false;
  run = λ vs. returns (outcome (stays vs) ∷ []);
}

abbrev here : FsmContext ℕ
unfolding new_fsm_context fsm_serializer
here =
    new_fsm_context (fsm_serializer counter) (record { name = "counter"; version = "1" })
      (record { run_id = "run"; workflow_id = "counter-1" }) (record { activities = none })
      "working" (some 3) 6

made :
    typed_decider count_type no_methods (some 0) (function staying)
    ≡ returns (marshalled_decider count_type no_methods (function staying))
unfolding typed_decider type_check types_match type_string
made = refl

refused :
    typed_decider count_type no_methods (some 0) (value_of_kind "int")
    ≡ panics (of_value "kind was int, not Func")
unfolding typed_decider type_check type_string
refused = refl

mistyped :
    typed_decider (λ n. basic "int") no_methods (some 0) (function staying)
    ≡ panics (of_value "type of argument 2 was *counts.Count, not int")
unfolding typed_decider type_check types_match type_string itoa
mistyped = refl

typed_decider-runs_example :
    let ran = staying.run (context here ∷ event zero_history_event ∷ datum 3 ∷ []) in
    ((o : Option (Outcome ℕ)) × (ran ≡ returns (outcome o ∷ []))
      × (marshalled_decider count_type no_methods
            (function staying)
            here
            zero_history_event
            (some 3)
          ≡ returns o))
    ⊎ ((p : Panic) × (ran ≡ panics p)
        × (marshalled_decider count_type no_methods
              (function staying)
              here
              zero_history_event
              (some 3)
            ≡ panics p))
typed_decider-runs_example =
    typed_decider-runs count_type no_methods staying 0 _ made refl
      ((λ e. refl), ((λ e. refl), ((λ e. refl), tt))) ((λ e. refl), tt)
      (λ vs rs outs ran. (stays vs, cc)) here zero_history_event 3 refl

typed_decider-nil_example :
    marshalled_decider count_type no_methods (function staying) here zero_history_event none
    ≡ panics (of_value "reflect: Call using zero Value argument")
typed_decider-nil_example =
    typed_decider-nil count_type no_methods staying 0 _ made here zero_history_event

-- A variadic function has the type of its slice checked, and is called as if it took an element of it.
abbrev several : Function ℕ
several = record {
  inputs = pointer (swf_type "FSMContext") ∷ swf_type "HistoryEvent" ∷ slice (basic "int") ∷ [];
  outputs = swf_type "Outcome" ∷ [];
  variadic = true;
  run = λ vs. returns (outcome none ∷ []);
}

abbrev ints : ℕ → GoType
ints n = slice (basic "int")

several_made :
    typed_decider ints no_methods (some 0) (function several)
    ≡ returns (marshalled_decider ints no_methods (function several))
unfolding typed_decider type_check types_match type_string
several_made = refl

several_panics :
    marshalled_decider ints no_methods (function several) here zero_history_event (some 3)
    ≡ panics (of_value "reflect: Call using a value as a type that it has not")
unfolding marshalled_decider call_of call value_of type_of same_type
several_panics = refl
