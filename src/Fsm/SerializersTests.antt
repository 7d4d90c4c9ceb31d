-- ===== src/Fsm/SerializersTests.antt =====
-- Numbers as messages, written in decimal.
use swf4go.Prelude.{ℕ, ◌≡◌, refl, sym, ap, Option, none, some, [], ◌∷◌}
use swf4go.Prelude.Decimal.{itoa, value, value-itoa}
use swf4go.Go.{ok, done, text, returns, panics, of_error}
use swf4go.Fsm.Serialization.{
  SerializedState, SerializedDecisionError, SerializedSystemError, Payload, user_data, state,
}
use swf4go.Fsm.Serializers.{
  ProtobufPackage, protobuf_serialize, protobuf_deserialize, protobuf_deserialize-serialize,
  protobuf_state_serializer,
}
use swf4go.Fsm.Machine.{Fsm}
use swf4go.Fsm.Tick.{tick}
use swf4go.Fsm.Tick.Protobuf.{tick-protobuf_state_serializer}
use swf4go.Fsm.Samples.{counter, saved, started, task}

abbrev decimals : ProtobufPackage ℕ ℕ
decimals = record {
  marshal = done;
  unmarshal = λ bin target. done bin;
  encode_to_string = itoa;
  decode_string = λ t. done (value 0 t);
}

-- numbers are messages, the structs of the FSM are none
abbrev numbers_only : Payload ℕ → Option ℕ
numbers_only (user_data v) = v
numbers_only _ = none

abbrev set_to : ℕ → ℕ → ℕ
set_to target m = m

protobuf_deserialize-serialize_example :
    protobuf_deserialize decimals numbers_only set_to (itoa 12) 0 ≡ returns (ok 12)
unfolding protobuf_serialize
protobuf_deserialize-serialize_example =
    protobuf_deserialize-serialize decimals numbers_only set_to 12 0 12 0 (itoa 12)
      (λ bin. ap done (value-itoa bin)) (λ x y bin e. sym e) refl refl refl

-- The state marker cannot be written by it.
state_not_serialized :
    protobuf_serialize decimals numbers_only set_to (state saved)
    ≡ panics (of_error (text "interface conversion: missing method ProtoMessage"))
unfolding protobuf_serialize
state_not_serialized = refl

-- what pointers to the FSM's own structs are as messages, and what they would become
abbrev own_state : Option ℕ × (ℕ → SerializedState)
own_state = (none, λ m. saved)

abbrev own_decision : Option ℕ × (ℕ → SerializedDecisionError ℕ)
own_decision = (
  none,
  λ m. record {
    error_event_id = m;
    unprocessed_event_ids = [];
    state_name = "";
    state_data = none;
    error = text "";
  },
)

abbrev own_system : Option ℕ × (ℕ → SerializedSystemError)
own_system = (none, λ m. record { error_type = ""; error = text ""; unprocessed_event_ids = [] })

abbrev protobuf_counter : Fsm ℕ
protobuf_counter = record counter {
  serializer =
      some
        (protobuf_state_serializer decimals numbers_only set_to own_state own_decision own_system);
}

-- The start of an execution cannot be read either.
start_not_read :
    tick protobuf_counter (task (started (itoa 3) ∷ []))
    ≡ panics (of_error (text "interface conversion: missing method ProtoMessage"))
unfolding tick protobuf_state_serializer
start_not_read = refl

tick-protobuf_state_serializer_example :
    tick protobuf_counter (task (started (itoa 3) ∷ [])) ≡ returns ([], some saved) → ⊥
unfolding protobuf_state_serializer
tick-protobuf_state_serializer_example =
    tick-protobuf_state_serializer decimals numbers_only set_to own_state own_decision own_system
      protobuf_counter (task (started (itoa 3) ∷ [])) [] saved refl (λ x. refl)
