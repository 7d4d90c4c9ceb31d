-- ===== src/Correlator/Laws.antt =====
-- What one `Track` does to the entries (fsm_models.go, lines 385 to 418).
use swf4go.Prelude.{ℕ, ◌≡◌, refl, sym, ap, ◌∙◌, ◌⊎◌, inl, inr, Option, none, some}
use swf4go.Prelude.Decimal.{itoa}
use swf4go.Prelude.Map.{Map, insert-insert, delete-delete}
use swf4go.Go.{Exec, returns, panics, ◌>>=◌}
use swf4go.Protocol.EventType.{EventType, activity_task_scheduled}
use swf4go.Protocol.HistoryEvent.{HistoryEvent}
use swf4go.Correlator.{
  ActivityInfo, ActivityCorrelator, entries, closed_id, delete_id, remove_correlation,
  scheduled_info, insert_info, correlate, track,
}

-- Only a scheduling event adds an entry, and it closes none.
pub one_effect :
    (t : EventType) (h : HistoryEvent)
    → (closed_id t h ≡ returns none) ⊎ (scheduled_info t h ≡ returns none)
unfolding closed_id scheduled_info
one_effect activity_task_scheduled h = inl refl
one_effect _ h = inr refl

pub closing_adds_nothing :
    (h : HistoryEvent) (n : ℕ)
    → closed_id h.event_type h ≡ returns (some n)
    → scheduled_info h.event_type h ≡ returns none
closing_adds_nothing h n k = elim (one_effect h.event_type h) [ inl e ↦ cc | inr e ↦ e ]

delete_id-delete_id :
    (o : Option ℕ) (m : Map ActivityInfo) → delete_id o (delete_id o m) ≡ delete_id o m
unfolding delete_id
delete_id-delete_id none m = refl
delete_id-delete_id (some id) m = delete-delete (itoa id) m

insert_info-insert_info :
    (n : ℕ) (o : Option ActivityInfo) (m : Map ActivityInfo)
    → insert_info n o (insert_info n o m) ≡ insert_info n o m
unfolding insert_info
insert_info-insert_info n none m = refl
insert_info-insert_info n (some info) m = insert-insert (itoa n) info m

module _ (n : ℕ) (m : Map ActivityInfo) where
  -- the two steps of `track`, over what they read of the event
  abbrev after : Option ℕ → Option ActivityInfo → ActivityCorrelator
  after closed added = record { activities = some (insert_info n added (delete_id closed m)) }

  abbrev steps : Exec (Option ℕ) → Exec (Option ActivityInfo) → Exec ActivityCorrelator
  steps c s =
      ◌>>=◌ {A = ActivityCorrelator}
        (c >>= λ closed. returns (record { activities = some (delete_id closed m) }))
        (λ a. s >>= λ added.
          returns (record { activities = some (insert_info n added (entries a.activities)) }))

  steps-eq-returns :
      (c : Exec (Option ℕ)) (s : Exec (Option ActivityInfo)) (b : ActivityCorrelator)
      → steps c s ≡ returns b
      → (closed : Option ℕ) × (added : Option ActivityInfo) × (c ≡ returns closed)
        × (s ≡ returns added)
        × (b ≡ after closed added)
  steps-eq-returns (returns closed) (returns added) b e = (closed, added, refl, refl, cc)
  steps-eq-returns (returns closed) (panics p) b e = cc
  steps-eq-returns (panics p) s b e = cc

-- The entries after a `Track` that returns.
pub track-entries :
    (a b : ActivityCorrelator) (h : HistoryEvent)
    → track a h ≡ returns b
    → (closed : Option ℕ) × (added : Option ActivityInfo) × (closed_id h.event_type h
        ≡ returns closed)
      × (scheduled_info h.event_type h ≡ returns added)
      × (b ≡ record {
        activities = some (insert_info h.event_id added (delete_id closed (entries a.activities)));
      })
track-entries a b h e =
    steps-eq-returns h.event_id (entries a.activities) (closed_id h.event_type h)
      (scheduled_info h.event_type h) b (unfold track remove_correlation correlate in e)

track-eq-returns :
    (a : ActivityCorrelator) (h : HistoryEvent) (closed : Option ℕ) (added : Option ActivityInfo)
    → closed_id h.event_type h ≡ returns closed
    → scheduled_info h.event_type h ≡ returns added
    → track a h ≡ returns (after h.event_id (entries a.activities) closed added)
unfolding track
track-eq-returns a h closed added p q = rw (p, q)

-- what one event adds and removes is done already
after-after :
    (n : ℕ) (m : Map ActivityInfo) (closed : Option ℕ) (added : Option ActivityInfo)
    → (closed ≡ none) ⊎ (added ≡ none)
    → insert_info n added (delete_id closed (insert_info n added (delete_id closed m)))
      ≡ insert_info n added (delete_id closed m)
unfolding insert_info delete_id
after-after n m closed added (inl e) = rw e (insert_info-insert_info n added m)
after-after n m closed added (inr e) = rw e (delete_id-delete_id closed m)

exclusive :
    (h : HistoryEvent) (closed : Option ℕ) (added : Option ActivityInfo)
    → closed_id h.event_type h ≡ returns closed
    → scheduled_info h.event_type h ≡ returns added
    → (closed ≡ none) ⊎ (added ≡ none)
exclusive h closed added p q = elim (one_effect h.event_type h) [
  | inl e ↦ inl (cc)
  | inr e ↦ inr (cc)
]

-- An event tracked a second time changes nothing.
pub track-track :
    (a b : ActivityCorrelator) (h : HistoryEvent) → track a h ≡ returns b → track b h ≡ returns b
track-track a b h e =
    let (closed, added, p, q, r) = track-entries a b h e in
    track-eq-returns b h closed added p q
    ∙ ap returns (
        ap (λ (x : ActivityCorrelator). after h.event_id (entries x.activities) closed added) r
        ∙ ap (λ (m : Map ActivityInfo). record { activities = some m })
            (after-after h.event_id (entries a.activities) closed added
              (exclusive h closed added p q))
        ∙ sym r)
