-- ===== src/Correlator/Lifecycle.antt =====
-- An activity between the event that schedules it and the one that closes it, as `ActivityType` of
-- the correlator answers (fsm_models.go, lines 421 to 436).
use swf4go.Prelude.{ℕ, ◌≡◌, ap, ◌∙◌, Option, none, some, arith}
use swf4go.Prelude.Decimal.{itoa}
use swf4go.Prelude.Map.{lookup}
use swf4go.Go.{returns}
use swf4go.Protocol.HistoryEvent.{HistoryEvent}
use swf4go.Correlator.{
  ActivityInfo, ActivityCorrelator, entries, closed_id, scheduled_info, made, track, activity_type,
}
use swf4go.Correlator.Laws.{track-entries, closing_adds_nothing}
use swf4go.Correlator.Pending.{observe, closed_id-ended, scheduled_info-begun, track-observe}

made_after_track :
    (a b : ActivityCorrelator) (h : HistoryEvent) → track a h ≡ returns b → made b ≡ b
unfolding made
made_after_track a b h e = let (closed, added, p, q, r) = track-entries a b h e in rw r

activity_type_closing :
    (n : ℕ) (a b : ActivityCorrelator) (h c : HistoryEvent)
    → track a h ≡ returns b
    → closed_id c.event_type c ≡ returns (some n)
    → activity_type b c ≡ returns (observe n (lookup (itoa n) (entries a.activities)) h, b)
unfolding activity_type
activity_type_closing n a b h c e k =
    rw k (ap returns (λ i. (track-observe n a b h e i, made_after_track a b h e i)))

observe_scheduled :
    (h : HistoryEvent) (current : Option ActivityInfo) {info : ActivityInfo}
    → scheduled_info h.event_type h ≡ returns (some info)
    → observe h.event_id current h ≡ some info
observe_scheduled h current e = rw (scheduled_info-begun h.event_type h _ e) (ground arith)

observe_closed :
    (n : ℕ) (c : HistoryEvent) (current : Option ActivityInfo)
    → closed_id c.event_type c ≡ returns (some n)
    → scheduled_info c.event_type c ≡ returns none
    → observe n current c ≡ none
observe_closed n c current p q =
    rw (closed_id-ended c.event_type c _ p, scheduled_info-begun c.event_type c _ q) (ground arith)

-- After an event that schedules an activity, a closing event that names it is answered with the
-- activity's identifier and type; once that event is tracked too, it is answered with nil.
pub activity_type-track :
    (a b d : ActivityCorrelator) (h c : HistoryEvent) (info : ActivityInfo)
    → scheduled_info h.event_type h ≡ returns (some info)
    → closed_id c.event_type c ≡ returns (some h.event_id)
    → track a h ≡ returns b
    → track b c ≡ returns d
    → (activity_type b c ≡ returns (some info, b)) × (activity_type d c ≡ returns (none, d))
activity_type-track a b d h c info s k e f = (
  activity_type_closing h.event_id a b h c e k
      ∙ ap (λ (o : Option ActivityInfo). returns (o, b)) (observe_scheduled h _ s),
  activity_type_closing h.event_id b d c c f k
      ∙ ap (λ (o : Option ActivityInfo). returns (o, d))
          (observe_closed h.event_id c _ k (closing_adds_nothing c h.event_id k)),
)
