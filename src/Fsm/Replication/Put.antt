-- ===== src/Fsm/Replication/Put.antt =====
-- What replication does to the world, for any client and any replicator (fsm.go, lines 200 to 234).
use swf4go.Prelude.{
  String, ◌≡◌, refl, sym, ap, ◌∙◌, ◌⊎◌, inl, inr, false, Bool-cases, Option, none, some, ◌==◌, List,
}
use swf4go.Go.{
  GoError, Result, ok, err, returns, deref, bind-eq-returns, returns-injective, deref-eq-returns,
}
use swf4go.Protocol.Workers.{PollForDecisionTaskResponse}
use swf4go.Protocol.Decision.{Decision}
use swf4go.Fsm.Tick.{tick}
use swf4go.Fsm.Serialization.{SerializedState, StateSerializer, replication}
use swf4go.Fsm.Machine.{Fsm}
use swf4go.Fsm.Replication.{
  FsmClient, KinesisReplicator, record_of, completion, replicate_text, replicate_state, replicate,
  handle_decision_task,
}

module _ {ℓ κ} {V : Type ℓ} {W : Type κ} (f : Fsm V) (client : FsmClient W)
    (replicator : KinesisReplicator W) (task : PollForDecisionTaskResponse) where
  -- The replicator was called once, with the put of the new state into the stream.
  pub record Put (new : Option SerializedState) (before after : W) : Type (ℓ ⊔ κ) where
    pub state : SerializedState
    pub has_state : new ≡ some state
    pub streamed : (f.kinesis_stream == "") ≡ false
    pub serializer : StateSerializer V
    pub has_serializer : f.serializer ≡ some serializer
    pub text : String
    pub serialized : serializer.serialize (replication state.replication_data) ≡ returns (ok text)
    pub put :
        after
        ≡ (replicator f.name task.workflow_execution.workflow_id
            (client.put_record (record_of f client replicator task text))
            before).1

  replicate_text_cases :
      (r : Result String) (w : W)
      → (replicate_text f client replicator task r w ≡ w)
        ⊎ ((text : String) × (r ≡ ok text)
            × (replicate_text f client replicator task r w
                ≡ (replicator f.name task.workflow_execution.workflow_id
                    (client.put_record (record_of f client replicator task text))
                    w).1))
  unfolding replicate_text
  replicate_text_cases (ok t) w = inr (t, refl, refl)
  replicate_text_cases (err e) w = inl refl

  replicate_cases :
      (answer : Option GoError) (new : Option SerializedState) (w w' : W)
      → replicate f client replicator task answer new w ≡ returns w'
      → (w' ≡ w) ⊎ ((answer ≡ none) × Put new w w')
  unfolding replicate replicate_state
  replicate_cases (some e) new w w' h = inl (sym (returns-injective h))
  replicate_cases none none w w' h = inl (sym (returns-injective h))
  replicate_cases none (some s) w w' h = elim (Bool-cases (f.kinesis_stream == "")) [
    | inl no_stream ↦ inl (sym (returns-injective (rw no_stream at h)))
    | inr streamed ↦
        let (ser, p, h₁) = bind-eq-returns (deref f.serializer) _ (rw streamed at h) in
        let (r, p₁, q) = bind-eq-returns (ser.serialize (replication s.replication_data)) _ h₁ in
        elim (replicate_text_cases r w) [
          | inl nothing ↦ inl (sym (returns-injective q) ∙ nothing)
          | inr (text, e, same) ↦ inr (
            refl,
            record {
              state = s;
              has_state = refl;
              streamed = streamed;
              serializer = ser;
              has_serializer = deref-eq-returns f.serializer p;
              text = text;
              serialized = p₁ ∙ ap returns e;
              put = sym (returns-injective q) ∙ same;
            },
          )
        ]
  ]

  -- What a task that is handled has done to the world: answered the task, and at most called the
  -- replicator.
  pub handle_decision_task_cases :
      (w w' : W)
      → handle_decision_task f client replicator task w ≡ returns w'
      → (ds : List Decision) × (new : Option SerializedState) × (tick f task ≡ returns (ds, new))
        × (let answer = client.respond_decision_task_completed (completion task ds new) w in
            (w' ≡ answer.1) ⊎ ((answer.0 ≡ none) × Put new answer.1 w'))
  unfolding handle_decision_task
  handle_decision_task_cases w w' h =
      let ((ds, new), p, q) = bind-eq-returns (tick f task) _ h in
      let answer = client.respond_decision_task_completed (completion task ds new) w in
      (ds, new, p, replicate_cases answer.0 new answer.1 w' q)
