-- ===== src/Fsm/Tick/Protobuf.antt =====
-- Ticks of an FSM with a ProtobufStateSerializer (fsm.go, lines 270 to 370 and 535 to 555; fsm_models.go,
-- lines 183 to 203).
use swf4go.Prelude.{◌≡◌, sym, ap, some-injective, ◌∙◌, Option, none, some, List}
use swf4go.Go.{returns}
use swf4go.Protocol.Decision.{Decision}
use swf4go.Protocol.Workers.{PollForDecisionTaskResponse}
use swf4go.Fsm.Serialization.{
  SerializedState, SerializedDecisionError, SerializedSystemError, StateSerializer, Payload, state,
}
use swf4go.Fsm.Serializers.{ProtobufPackage, protobuf_serialize, protobuf_state_serializer}
use swf4go.Fsm.Machine.{Fsm}
use swf4go.Fsm.Tick.{tick}
use swf4go.Fsm.Tick.Marker.{tick-Written}

module _ {ℓ κ μ} {V : Type ℓ} {M : Type κ} {B : Type μ} (proto : ProtobufPackage M B)
    (message : Payload V → Option M) (value : V → M → V)
    (own_state : Option M × (M → SerializedState))
    (own_decision : Option M × (M → SerializedDecisionError V))
    (own_system : Option M × (M → SerializedSystemError)) where
  -- No Tick of an FSM whose serializer is a ProtobufStateSerializer returns a state, on any task, where
  -- SerializedState is no protobuf message.
  pub tick-protobuf_state_serializer :
      (f : Fsm V) (task : PollForDecisionTaskResponse) (ds : List Decision) (new : SerializedState)
      → f.serializer
        ≡ some (protobuf_state_serializer proto message value own_state own_decision own_system)
      → ((x : SerializedState) → message (state x) ≡ none)
      → tick f task ≡ returns (ds, some new)
      → ⊥
  unfolding protobuf_state_serializer protobuf_serialize
  tick-protobuf_state_serializer f task ds new has no_message h =
      let (l, w) = tick-Written f task ds new h in
      let same = some-injective (sym w.has_serializer ∙ has) in
      let written =
        ap (λ (s : StateSerializer V). s.serialize (state new)) (sym same) ∙ w.serialized in
      let refused = rw (no_message new) at written in cc
