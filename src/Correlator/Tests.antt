-- ===== src/Correlator/Tests.antt =====
-- A history with two activities, one of them closed.
use swf4go.Prelude.{◌+◌, ◌≤◌, length, ◌≡◌, refl, none, some, [], ◌∷◌}
use swf4go.Prelude.Decimal.{itoa}
use swf4go.Prelude.Map.{lookup}
use swf4go.Go.{returns}
use swf4go.Protocol.EventType.{activity_task_scheduled, activity_task_completed}
use swf4go.Protocol.HistoryEvent.{HistoryEvent}
use swf4go.Protocol.Zero.{
  zero_history_event, zero_activity_task_scheduled, zero_activity_task_completed,
}
use swf4go.Correlator.{ActivityInfo, ActivityCorrelator, entries, track, activity_type}
use swf4go.Correlator.Laws.{track-track}
use swf4go.Correlator.Pending.{track_all, in_flight, track_all-in_flight}
use swf4go.Correlator.Bounded.{scheduled_count, length-track_all}
use swf4go.Correlator.Lifecycle.{activity_type-track}

abbrev info : ActivityInfo
info = record { activity_id = "a"; activity_type = record { name = "resize"; version = "1" } }

abbrev other_info : ActivityInfo
other_info = record { activity_id = "b"; activity_type = record { name = "upload"; version = "1" } }

abbrev scheduled : HistoryEvent
scheduled = record zero_history_event {
  event_id = 5;
  event_type = activity_task_scheduled;
  activity_task_scheduled_event_attributes = some (record zero_activity_task_scheduled {
    activity_id = "a";
    activity_type = record { name = "resize"; version = "1" };
  });
}

abbrev other_scheduled : HistoryEvent
other_scheduled = record zero_history_event {
  event_id = 6;
  event_type = activity_task_scheduled;
  activity_task_scheduled_event_attributes = some (record zero_activity_task_scheduled {
    activity_id = "b";
    activity_type = record { name = "upload"; version = "1" };
  });
}

abbrev completed : HistoryEvent
completed = record zero_history_event {
  event_id = 9;
  event_type = activity_task_completed;
  activity_task_completed_event_attributes =
      some (record zero_activity_task_completed { scheduled_event_id = 5 });
}

abbrev fresh : ActivityCorrelator
fresh = record { activities = none }

abbrev one : ActivityCorrelator
one = record { activities = some (("5", info) ∷ []) }

abbrev only_other : ActivityCorrelator
only_other = record { activities = some (("6", other_info) ∷ []) }

abbrev drained : ActivityCorrelator
drained = record { activities = some [] }

track-track_example : track one scheduled ≡ returns one
unfolding track
track-track_example = track-track fresh one scheduled refl

activity_type-track_example :
    (activity_type one completed ≡ returns (some info, one))
    × (activity_type drained completed ≡ returns (none, drained))
unfolding track
activity_type-track_example =
    activity_type-track fresh one drained scheduled completed info refl refl refl refl

track_all-in_flight_example :
    lookup (itoa 6) (entries only_other.activities)
    ≡ in_flight 6
        (lookup (itoa 6) (entries fresh.activities))
        (scheduled ∷ other_scheduled ∷ completed ∷ [])
unfolding track_all track
track_all-in_flight_example =
    track_all-in_flight 6 fresh only_other (scheduled ∷ other_scheduled ∷ completed ∷ []) refl

length-track_all_example :
    length (entries only_other.activities)
    ≤ scheduled_count (scheduled ∷ other_scheduled ∷ completed ∷ [])
      + length (entries fresh.activities)
unfolding track_all track
length-track_all_example =
    length-track_all fresh only_other (scheduled ∷ other_scheduled ∷ completed ∷ []) refl
