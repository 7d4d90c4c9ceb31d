-- ===== src/Fsm/Samples/Attributes.antt =====
-- The sample events come with their attributes.
use swf4go.Prelude.{ℕ, String, ◌≡◌, refl}
use swf4go.Protocol.EventType.{
  workflow_execution_started, workflow_execution_signaled, marker_recorded, decision_task_started,
}
use swf4go.Fsm.History.Scan.{HasAttributes}
use swf4go.Fsm.Samples.{started, signaled, marked, task_started}

pub started-HasAttributes : (input : String) → HasAttributes (started input)
started-HasAttributes input = record {
  marker = λ e. absurd (no_marker e);
  signal = λ e. absurd (no_signal e);
  start = λ e. (_, refl);
}
  where
    no_marker : workflow_execution_started ≡ marker_recorded → ⊥
    no_marker e = cc

    no_signal : workflow_execution_started ≡ workflow_execution_signaled → ⊥
    no_signal e = cc

pub signaled-HasAttributes : (id : ℕ) (name : String) → HasAttributes (signaled id name)
signaled-HasAttributes id name = record {
  marker = λ e. absurd (no_marker e);
  signal = λ e. (_, refl);
  start = λ e. absurd (no_start e);
}
  where
    no_marker : workflow_execution_signaled ≡ marker_recorded → ⊥
    no_marker e = cc

    no_start : workflow_execution_signaled ≡ workflow_execution_started → ⊥
    no_start e = cc

pub marked-HasAttributes : (id : ℕ) (details : String) → HasAttributes (marked id details)
marked-HasAttributes id details = record {
  marker = λ e. (_, refl);
  signal = λ e. absurd (no_signal e);
  start = λ e. absurd (no_start e);
}
  where
    no_signal : marker_recorded ≡ workflow_execution_signaled → ⊥
    no_signal e = cc

    no_start : marker_recorded ≡ workflow_execution_started → ⊥
    no_start e = cc

pub task_started-HasAttributes : (id : ℕ) → HasAttributes (task_started id)
task_started-HasAttributes id = record {
  marker = λ e. absurd (no_marker e);
  signal = λ e. absurd (no_signal e);
  start = λ e. absurd (no_start e);
}
  where
    no_marker : decision_task_started ≡ marker_recorded → ⊥
    no_marker e = cc

    no_signal : decision_task_started ≡ workflow_execution_signaled → ⊥
    no_signal e = cc

    no_start : decision_task_started ≡ workflow_execution_started → ⊥
    no_start e = cc
