-- ===== src/Fsm/Serializers.antt =====
-- The serializers of the library (fsm_models.go, lines 159 to 203). `encoding/json`, goprotobuf and
-- `encoding/base64` are parameters.
use swf4go.Prelude.{String, ◌≡◌, refl, Option, none, some, inl, inr}
use swf4go.Go.{
  text, Result, ok, err, Attempt, done, failed, returned, Exec, returns, panics, of_error, ◌>>=◌,
  returns-injective, ok-injective, Attempt-cases,
}
use swf4go.Fsm.Serialization.{
  SerializedState, SerializedDecisionError, SerializedSystemError, StateSerializer, Payload,
  user_data,
}

-- json.Encoder.Encode, and json.Decoder.Decode into the user's type and the FSM's own.
pub record JsonPackage {ℓ} (V : Type ℓ) : Type ℓ where
  pub encode : Payload V → Attempt String
  pub decode : String → V → Attempt V
  pub decode_state : String → Attempt SerializedState
  pub decode_decision_error : String → Attempt (SerializedDecisionError V)
  pub decode_system_error : String → Attempt SerializedSystemError

-- JSONStateSerializer
unfoldable pub json_state_serializer {ℓ} : {V : Type ℓ} → JsonPackage V → StateSerializer V
json_state_serializer json = record {
  serialize = λ p. returns (returned (json.encode p));
  deserialize = λ t target. returns (returned (json.decode t target));
  deserialize_state = λ t. returns (returned (json.decode_state t));
  deserialize_decision_error = λ t. returns (returned (json.decode_decision_error t));
  deserialize_system_error = λ t. returns (returned (json.decode_system_error t));
}

-- proto.Marshal and proto.Unmarshal, on messages and bytes, and base64.StdEncoding.
pub record ProtobufPackage {ℓ κ} (M : Type ℓ) (B : Type κ) : Type (ℓ ⊔ κ) where
  pub marshal : M → Attempt B
  pub unmarshal : B → M → Attempt M
  pub encode_to_string : B → String
  pub decode_string : String → Attempt B

-- state.(proto.Message)
abbrev not_a_message {ℓ} : {A : Type ℓ} → Exec A
not_a_message = panics (of_error (text "interface conversion: missing method ProtoMessage"))

module _ {ℓ κ μ} {V : Type ℓ} {M : Type κ} {B : Type μ} (proto : ProtobufPackage M B)
    (message : Payload V → Option M) (value : V → M → V) where
  asserted : Option M → Exec M
  asserted none = not_a_message
  asserted (some m) = returns m

  -- `message` leads from a value to the message that it is, if its type has the methods of one, and
  -- `value` back to the user's data from what its message becomes. A nil interface is no message.
  as_message : Payload V → Exec M
  unfolding asserted
  as_message (user_data none) = not_a_message
  as_message p = asserted (message p)

  encoded : Attempt B → Result String
  encoded (done bin) = ok (proto.encode_to_string bin)
  encoded (failed t) = err (text t)

  -- ProtobufStateSerializer.Serialize
  unfoldable pub protobuf_serialize : Payload V → Exec (Result String)
  unfolding as_message encoded
  protobuf_serialize p = do m ← as_message p; returns (encoded (proto.marshal m))

  filled : V → Attempt M → Result V
  filled target (done m) = ok (value target m)
  filled target (failed t) = err (text t)

  unmarshalled : V → Attempt B → Exec (Result V)
  unfolding as_message filled
  unmarshalled target (failed t) = returns (err (text t))
  unmarshalled target (done bin) = do
    m ← as_message (user_data (some target))
    returns (filled target (proto.unmarshal bin m))

  -- ProtobufStateSerializer.Deserialize, into the user's type
  unfoldable pub protobuf_deserialize : String → V → Exec (Result V)
  unfolding unmarshalled
  protobuf_deserialize serialized target = unmarshalled target (proto.decode_string serialized)

  -- A message that a ProtobufStateSerializer has serialized is deserialized again, into a target that is a message
  -- too, where base64 and protobuf each read back what they write.
  pub protobuf_deserialize-serialize :
      (v target : V) (m n : M) (t : String)
      → ((bin : B) → proto.decode_string (proto.encode_to_string bin) ≡ done bin)
      → ((x y : M) (bin : B) → proto.marshal x ≡ done bin → proto.unmarshal bin y ≡ done x)
      → message (user_data (some v)) ≡ some m
      → message (user_data (some target)) ≡ some n
      → protobuf_serialize (user_data (some v)) ≡ returns (ok t)
      → protobuf_deserialize t target ≡ returns (ok (value target m))
  unfolding protobuf_serialize protobuf_deserialize unmarshalled as_message
  protobuf_deserialize-serialize v target m n t base64 protobuf is_message also h =
      elim (Attempt-cases (proto.marshal m)) [
        | inl (bin, e) ↦
            let same : proto.encode_to_string bin ≡ t =
              ok-injective (returns-injective (rw (is_message, e) at h)) in
            rw (← same, base64 bin, also, protobuf m n bin e) refl
        | inr (x, e) ↦ let q = rw (is_message, e) at h in cc
      ]

-- ProtobufStateSerializer as a StateSerializer. Pointers to fresh structs of the FSM's own may be messages
-- or not, and what becomes of them then is read from the message.
module _ {ℓ κ μ} {V : Type ℓ} {M : Type κ} {B : Type μ} (proto : ProtobufPackage M B)
    (message : Payload V → Option M) (value : V → M → V) where
  read_into {ν} : {A : Type ν} → (M → A) → Attempt M → Result A
  read_into back (done m) = ok (back m)
  read_into back (failed t) = err (text t)

  deserialize_own {ν} : {A : Type ν} → Option M → (M → A) → Attempt B → Exec (Result A)
  unfolding asserted read_into
  deserialize_own target back (failed t) = returns (err (text t))
  deserialize_own target back (done bin) = do
    m ← asserted proto message value target
    returns (read_into back (proto.unmarshal bin m))

  unfoldable pub protobuf_state_serializer :
      Option M × (M → SerializedState)
      → Option M × (M → SerializedDecisionError V)
      → Option M × (M → SerializedSystemError)
      → StateSerializer V
  unfolding protobuf_serialize protobuf_deserialize deserialize_own
  protobuf_state_serializer (fresh_state, state_of) (fresh_decision, decision_of)
        (fresh_system, system_of) =
      record {
        serialize = protobuf_serialize proto message value;
        deserialize = protobuf_deserialize proto message value;
        deserialize_state = λ t. deserialize_own fresh_state state_of (proto.decode_string t);
        deserialize_decision_error =
            λ t. deserialize_own fresh_decision decision_of (proto.decode_string t);
        deserialize_system_error =
            λ t. deserialize_own fresh_system system_of (proto.decode_string t);
      }
