-- ===== src/Protocol/DecisionSelectors.antt =====
-- The table `decisionTypes` (protocol.go, lines 688 to 701), from each decision type to the selector of its
-- attributes, and Decision.String (lines 719 to 726).
use mathlib.Core.Option
use swf4go.Prelude.{String, ◌≡◌, Option, none, some}
use Prim.Native.String.{◌++◌}
use swf4go.Go.{Exec, returns, ◌>>=◌, deref}
use swf4go.Protocol.DecisionAttributes.{
  CancelTimerDecisionAttributes, CancelWorkflowExecutionDecisionAttributes,
  CompleteWorkflowExecutionDecisionAttributes, ContinueAsNewWorkflowExecutionDecisionAttributes,
  FailWorkflowExecutionDecisionAttributes, RecordMarkerDecisionAttributes,
  RequestCancelActivityTaskDecisionAttributes,
  RequestCancelExternalWorkflowExecutionDecisionAttributes, ScheduleActivityTaskDecisionAttributes,
  SignalExternalWorkflowExecutionDecisionAttributes, StartChildWorkflowExecutionDecisionAttributes,
  StartTimerDecisionAttributes,
}
use swf4go.Protocol.DecisionType.{DecisionType, decision_type_text}
use swf4go.Protocol.Decision.{Decision}

-- What a selector returns, an `interface{}` in the program.
pub data SelectedAttributes : Type 0 where
  schedule_activity_task : ScheduleActivityTaskDecisionAttributes → SelectedAttributes
  request_cancel_activity_task : RequestCancelActivityTaskDecisionAttributes → SelectedAttributes
  complete_workflow_execution : CompleteWorkflowExecutionDecisionAttributes → SelectedAttributes
  fail_workflow_execution : FailWorkflowExecutionDecisionAttributes → SelectedAttributes
  cancel_workflow_execution : CancelWorkflowExecutionDecisionAttributes → SelectedAttributes
  continue_as_new_workflow_execution :
      ContinueAsNewWorkflowExecutionDecisionAttributes → SelectedAttributes
  record_marker : RecordMarkerDecisionAttributes → SelectedAttributes
  start_timer : StartTimerDecisionAttributes → SelectedAttributes
  cancel_timer : CancelTimerDecisionAttributes → SelectedAttributes
  signal_external_workflow_execution :
      SignalExternalWorkflowExecutionDecisionAttributes → SelectedAttributes
  request_cancel_external_workflow_execution :
      RequestCancelExternalWorkflowExecutionDecisionAttributes → SelectedAttributes
  start_child_workflow_execution :
      StartChildWorkflowExecutionDecisionAttributes → SelectedAttributes

-- A type that is no key has no selector.
unfoldable pub decision_selector : DecisionType → Option (Decision → Option SelectedAttributes)
decision_selector DecisionType.schedule_activity_task =
    some (λ d. Option.map schedule_activity_task d.schedule_activity_task_decision_attributes)
decision_selector DecisionType.request_cancel_activity_task = some (λ d.
    Option.map request_cancel_activity_task d.request_cancel_activity_task_decision_attributes)
decision_selector DecisionType.complete_workflow_execution =
    some (λ d.
      Option.map complete_workflow_execution d.complete_workflow_execution_decision_attributes)
decision_selector DecisionType.fail_workflow_execution =
    some (λ d. Option.map fail_workflow_execution d.fail_workflow_execution_decision_attributes)
decision_selector DecisionType.cancel_workflow_execution =
    some (λ d. Option.map cancel_workflow_execution d.cancel_workflow_execution_decision_attributes)
decision_selector DecisionType.continue_as_new_workflow_execution = some (λ d.
    Option.map continue_as_new_workflow_execution
      d.continue_as_new_workflow_execution_decision_attributes)
decision_selector DecisionType.record_marker =
    some (λ d. Option.map record_marker d.record_marker_decision_attributes)
decision_selector DecisionType.start_timer =
    some (λ d. Option.map start_timer d.start_timer_decision_attributes)
decision_selector DecisionType.cancel_timer =
    some (λ d. Option.map cancel_timer d.cancel_timer_decision_attributes)
decision_selector DecisionType.signal_external_workflow_execution = some (λ d.
    Option.map signal_external_workflow_execution
      d.signal_external_workflow_execution_decision_attributes)
decision_selector DecisionType.request_cancel_external_workflow_execution = some (λ d.
    Option.map request_cancel_external_workflow_execution
      d.request_cancel_external_workflow_execution_decision_attributes)
decision_selector DecisionType.start_child_workflow_execution = some (λ d.
    Option.map start_child_workflow_execution d.start_child_workflow_execution_decision_attributes)
decision_selector (DecisionType.other name) = none

-- decisionTypes[d.DecisionType](d), where a missing selector is a nil function
unfoldable pub decision_attributes : Decision → Exec (Option SelectedAttributes)
unfolding decision_selector
decision_attributes d = do
  selector ← deref (decision_selector d.decision_type)
  returns (selector d)

-- Decision.String, over the text that `fmt` makes of the attributes
unfoldable pub decision_string : (Option SelectedAttributes → String) → Decision → Exec String
unfolding decision_attributes decision_type_text
decision_string sprint d = do
  attributes ← decision_attributes d
  returns (
      "Decision{ "
      ++ "DecisionType: "
      ++ decision_type_text d.decision_type
      ++ ","
      ++ sprint attributes
      ++ " }")

-- A decision that comes with the attributes of its type.
abbrev pub IsComplete : Decision → Type 0
IsComplete d = (a : SelectedAttributes) × (decision_attributes d ≡ returns (some a))
