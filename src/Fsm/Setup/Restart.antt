-- ===== src/Fsm/Setup/Restart.antt =====
-- The inputs that start and continue a workflow, as the new execution's first task finds them (fsm.go,
-- lines 612 to 639 and 489 to 499; fsm_models.go, lines 337 to 352).
use swf4go.Prelude.{
  ℕ, String, ◌≡◌, refl, sym, ap, ◌∙◌, some-injective, subst, false, Option, none, some, List, ◌∷◌,
  ◌++◌, ◌==◌, All,
}
use swf4go.Go.{
  Result, ok, err, Exec, returns, panics, ◌>>=◌, deref, must, bind-eq-returns, returns-injective,
}
use swf4go.Protocol.WorkflowEvents.{WorkflowExecutionStartedEventAttributes}
use swf4go.Protocol.EventType.{workflow_execution_started}
use swf4go.Protocol.DecisionAttributes.{ContinueAsNewWorkflowExecutionDecisionAttributes}
use swf4go.Protocol.Decision.{Decision}
use swf4go.Protocol.HistoryEvent.{HistoryEvent}
use swf4go.Fsm.Serialization.{
  SerializedState, StateSerializer, FsmSerializer, Payload, user_data, state,
}
use swf4go.Fsm.Context.{FsmContext, FsmState, continue_workflow_decision}
use swf4go.Fsm.Machine.{Fsm, serialize, fsm_serializer}
use swf4go.Fsm.History.{find_serialized_state}
use swf4go.Fsm.History.Finding.{IsQuiet, find-quiet, find-start, find-start_unnamed}
use swf4go.Fsm.Setup.{start_input}

must-eq-returns {ℓ} :
    {A : Type ℓ} (m : Exec (Result A)) {a : A} → (m >>= must) ≡ returns a → m ≡ returns (ok a)
must-eq-returns (returns (ok a)) h = cc
must-eq-returns (returns (err e)) h = cc
must-eq-returns (panics p) h = cc

-- The start event of an execution with this input.
pub record StartsWith (input : String) (h : HistoryEvent) : Type 0 where
  pub type : h.event_type ≡ workflow_execution_started
  pub attributes : WorkflowExecutionStartedEventAttributes
  pub has_attributes : h.workflow_execution_started_event_attributes ≡ some attributes
  pub given : attributes.input ≡ input

-- A state without activities.
abbrev pub plain_state : ℕ → String → String → SerializedState
plain_state version name state_data = record {
  replication_data = record { state_version = version; state_name = name; state_data = state_data };
  pending_activities = record { activities = none };
}

module _ {ℓ} {V : Type ℓ} (f : Fsm V) (s : StateSerializer V)
    (has_serializer : f.serializer ≡ some s)
    (reads_back : (x : SerializedState) (t : String)
      → s.serialize (state x) ≡ returns (ok t)
      → s.deserialize_state t ≡ returns (ok x)) where
  -- A new execution with the input of StartFSMWorkflowInput is found in the FSM's initial state, at
  -- version 0, with the data that was given, serialized.
  pub find-start_input :
      (initial : FsmState V) (value : Option V) (input : String) (h : HistoryEvent)
      (newer older : List HistoryEvent)
      → f.initial_state ≡ some initial
      → start_input s value ≡ returns input
      → StartsWith input h
      → All IsQuiet newer
      → (t : String) × (s.serialize (user_data value) ≡ returns (ok t))
        × (find_serialized_state f (newer ++ h ∷ older)
            ≡ returns (ok (plain_state 0 initial.name t)))
  unfolding start_input
  find-start_input initial value input h newer older has_initial e w q =
      let (written, p₀, e₀) = bind-eq-returns (s.serialize (user_data value)) _ e in
      let (t, p, e₁) = bind-eq-returns (must written) _ e₀ in
      let read : s.deserialize_state w.attributes.input ≡ returns (ok (plain_state 0 "" t)) =
        ap s.deserialize_state w.given
        ∙ reads_back (plain_state 0 "" t) input (must-eq-returns _ e₁) in
      (
        t,
        must-eq-returns (s.serialize (user_data value)) (ap (λ m. m >>= must) p₀ ∙ p),
        find-quiet f newer (h ∷ older) q
            ∙ find-start_unnamed f s initial h w.attributes older (plain_state 0 "" t)
                has_serializer has_initial w.type w.has_attributes read refl,
      )

  -- what a decision or an input that continues a workflow makes the next execution find
  continued :
      (version : ℕ) (name state_data input : String) (h : HistoryEvent)
      (newer older : List HistoryEvent)
      → s.serialize (state (plain_state version name state_data)) ≡ returns (ok input)
      → (name == "") ≡ false
      → StartsWith input h
      → All IsQuiet newer
      → find_serialized_state f (newer ++ h ∷ older)
        ≡ returns (ok (plain_state version name state_data))
  continued version name state_data input h newer older e named w q =
      let x = plain_state version name state_data in
      find-quiet f newer (h ∷ older) q
      ∙ find-start f s h w.attributes older x has_serializer w.type w.has_attributes
          (ap s.deserialize_state w.given ∙ reads_back x input e) named

  serialized-by :
      (ctx : FsmContext V) (p : Payload V) (t : String)
      → ctx.serialization ≡ fsm_serializer f
      → ctx.serialization.serialize p ≡ returns t
      → s.serialize p ≡ returns (ok t)
  unfolding fsm_serializer serialize
  serialized-by ctx p t mine e = must-eq-returns (s.serialize p) (
      sym (
        ap (λ (o : Option (StateSerializer V)). deref o >>= λ x. x.serialize p >>= must)
          has_serializer)
      ∙ ap (λ (x : FsmSerializer V). x.serialize p) (sym mine)
      ∙ e)

  -- The input of a ContinueWorkflowDecision in a context of this FSM: the next execution is found in
  -- the state that was named, with the data and the version of the context, and no activities.
  pub find-continue_workflow_decision :
      (ctx : FsmContext V) (name : String) (d : Decision)
      (asked : ContinueAsNewWorkflowExecutionDecisionAttributes) (h : HistoryEvent)
      (newer older : List HistoryEvent)
      → ctx.serialization ≡ fsm_serializer f
      → (name == "") ≡ false
      → continue_workflow_decision ctx name ≡ returns d
      → d.continue_as_new_workflow_execution_decision_attributes ≡ some asked
      → StartsWith asked.input h
      → All IsQuiet newer
      → (t : String) × (s.serialize (user_data ctx.state_data) ≡ returns (ok t))
        × (find_serialized_state f (newer ++ h ∷ older)
            ≡ returns (ok (plain_state ctx.state_version name t)))
  unfolding continue_workflow_decision
  find-continue_workflow_decision ctx name d asked h newer older mine named e a w q =
      let (t, p, e₁) =
        bind-eq-returns (ctx.serialization.serialize (user_data ctx.state_data)) _ e in
      let (input, p₁, e₂) =
        bind-eq-returns (ctx.serialization.serialize (state (plain_state ctx.state_version name t)))
          _ e₁ in
      let same : asked.input ≡ input =
        ap (λ (x : ContinueAsNewWorkflowExecutionDecisionAttributes). x.input)
          (some-injective (
            sym a
            ∙ ap (λ (x : Decision). x.continue_as_new_workflow_execution_decision_attributes)
                (sym (returns-injective e₂)))) in
      (
        t,
        serialized-by ctx _ t mine p,
        continued ctx.state_version name t input h newer older (serialized-by ctx _ input mine p₁)
            named (subst (λ (x : String). StartsWith x h) same w) q,
      )
