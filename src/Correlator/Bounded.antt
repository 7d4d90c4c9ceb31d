-- ===== src/Correlator/Bounded.antt =====
-- How many activities the correlator holds (fsm_models.go, lines 227 to 318).
use swf4go.Prelude.{
  ℕ, suc, ◌+◌, ◌≤◌, String, ◌≡◌, Option, none, some, List, [], ◌∷◌, length, ◌==◌, Bool-cases, inl,
  inr, arith,
}
use swf4go.Prelude.Decimal.{itoa}
use swf4go.Prelude.Map.{Map, insert, delete}
use swf4go.Go.{returns, bind-eq-returns, returns-injective}
use swf4go.Protocol.EventType.{EventType, activity_task_scheduled}
use swf4go.Protocol.HistoryEvent.{HistoryEvent}
use swf4go.Correlator.{
  ActivityInfo, ActivityCorrelator, entries, delete_id, scheduled_info, insert_info, track,
}
use swf4go.Correlator.Laws.{track-entries}
use swf4go.Correlator.Pending.{track_all}

-- The events that schedule an activity.
abbrev is_scheduled : EventType → ℕ
is_scheduled activity_task_scheduled = 1
is_scheduled _ = 0

unfoldable pub scheduled_count : List HistoryEvent → ℕ
scheduled_count [] = 0
scheduled_count (h ∷ hs) = is_scheduled h.event_type + scheduled_count hs

length-insert {ℓ} :
    {V : Type ℓ} (k : String) (v : V) (m : Map V) → length (insert k v m) ≤ suc (length m)
unfolding insert
length-insert k v [] = omega arith
length-insert k v (e ∷ m) = elim (Bool-cases (e.0 == k)) [
  | inl same ↦ rw same (omega arith)
  | inr other ↦ rw other (omega (arith, length-insert k v m))
]

length-delete {ℓ} : {V : Type ℓ} (k : String) (m : Map V) → length (delete k m) ≤ length m
unfolding delete
length-delete k [] = omega arith
length-delete k (e ∷ m) = elim (Bool-cases (e.0 == k)) [
  | inl same ↦ rw same (omega (arith, length-delete k m))
  | inr other ↦ rw other (omega (arith, length-delete k m))
]

length-delete_id : (o : Option ℕ) (m : Map ActivityInfo) → length (delete_id o m) ≤ length m
unfolding delete_id
length-delete_id none m = omega arith
length-delete_id (some id) m = length-delete (itoa id) m

insert_info_at_most :
    (id : ℕ) (o : Option ActivityInfo) (m : Map ActivityInfo)
    → length (insert_info id o m) ≤ suc (length m)
unfolding insert_info
insert_info_at_most id none m = omega arith
insert_info_at_most id (some info) m = length-insert (itoa id) info m

insert_info_unchanged :
    (id : ℕ) (o : Option ActivityInfo) (m : Map ActivityInfo)
    → returns none ≡ returns o
    → length (insert_info id o m) ≤ length m
unfolding insert_info
insert_info_unchanged id none m e = omega arith
insert_info_unchanged id (some info) m e = cc

length-insert_info :
    (t : EventType) (h : HistoryEvent) (id : ℕ) (o : Option ActivityInfo) (m : Map ActivityInfo)
    → scheduled_info t h ≡ returns o
    → length (insert_info id o m) ≤ is_scheduled t + length m
unfolding scheduled_info
length-insert_info activity_task_scheduled h id o m e = omega (arith, insert_info_at_most id o m)
length-insert_info t h id o m e = omega (arith, insert_info_unchanged id o m e)

length-track :
    (a b : ActivityCorrelator) (h : HistoryEvent)
    → track a h ≡ returns b
    → length (entries b.activities) ≤ is_scheduled h.event_type + length (entries a.activities)
length-track a b h e =
    let (closed, added, p, q, same) = track-entries a b h e in
    rw same (
      omega (
        arith,
        length-delete_id closed (entries a.activities),
        length-insert_info h.event_type h h.event_id added (delete_id closed (entries a.activities))
            q,
      ))

-- A correlator that a history was tracked into holds no more activities than it held before and the
-- history schedules.
pub length-track_all :
    (a b : ActivityCorrelator) (hs : List HistoryEvent)
    → track_all a hs ≡ returns b
    → length (entries b.activities) ≤ scheduled_count hs + length (entries a.activities)
unfolding track_all scheduled_count
length-track_all a b [] e = let same = returns-injective e in rw same (omega arith)
length-track_all a b (h ∷ hs) e =
    let (c, first, rest) = bind-eq-returns (track a h) (λ c. track_all c hs) e in
    omega (arith, length-track a c h first, length-track_all c b hs rest)
