-- ===== src/Protocol/DecisionTable.antt =====
-- The list that `DecisionTypes` returns (protocol.go, lines 672 to 737).
use swf4go.Prelude.{String, List, [], ◌∷◌, map}
use swf4go.Protocol.EventType.{event_type_text}
use swf4go.Protocol.EventTable.{all_event_types}
use swf4go.Protocol.DecisionType.{
  DecisionType, schedule_activity_task, request_cancel_activity_task, complete_workflow_execution,
  fail_workflow_execution, cancel_workflow_execution, continue_as_new_workflow_execution,
  record_marker, start_timer, cancel_timer, signal_external_workflow_execution,
  request_cancel_external_workflow_execution, start_child_workflow_execution,
}

-- The constants.
abbrev pub all_decision_types : List DecisionType
all_decision_types =
    schedule_activity_task ∷ request_cancel_activity_task ∷ complete_workflow_execution
    ∷ fail_workflow_execution ∷ cancel_workflow_execution ∷ continue_as_new_workflow_execution
    ∷ record_marker ∷ start_timer ∷ cancel_timer ∷ signal_external_workflow_execution
    ∷ request_cancel_external_workflow_execution ∷ start_child_workflow_execution ∷ []

-- What `DecisionTypes` returns, as texts: it goes over the keys of `eventTypes`.
unfoldable pub decision_types : List String
unfolding all_event_types event_type_text
decision_types = map event_type_text all_event_types
