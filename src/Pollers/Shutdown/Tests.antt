-- ===== src/Pollers/Shutdown/Tests.antt =====
-- One poller, stopped.
use swf4go.Prelude.{ℕ, Bool, true, false, [], ◌∷◌, ◌≤◌, ◌≡◌, refl, All}
use swf4go.Pollers.Shutdown.{
  polling, stopping, returned, Poller, sending, finished, System, set, send, sent, hear, heard,
  round, notice, acknowledge, Reaches, start, after,
}
use swf4go.Pollers.Shutdown.Progress.{StopPollers-progress}
use swf4go.Pollers.Shutdown.Bounded.{moves_of, StopPollers-bounded}
use swf4go.Pollers.Shutdown.Stopped.{StopPollers-Returned}

abbrev running : ℕ → Poller
running p = record { phase = polling; stop = false; stop_ack = false }

abbrev told : ℕ → Poller
told = set 4 (record { phase = polling; stop = true; stop_ack = false }) running

abbrev noticed : ℕ → Poller
noticed = set 4 (record { phase = stopping; stop = false; stop_ack = false }) told

abbrev answered : ℕ → Poller
answered = set 4 (record { phase = returned; stop = false; stop_ack = true }) noticed

abbrev heard_of : ℕ → Poller
heard_of = set 4 (record { phase = returned; stop = false; stop_ack = false }) answered

abbrev stopped_one :
    Reaches
      (record { manager = sending (4 ∷ []) (4 ∷ []); pollers = running })
      (record { manager = finished; pollers = heard_of })
stopped_one =
    after
      (after
        (after
          (after
            (after (after (after start (round 4 refl refl)) (send 4 [] (4 ∷ []) refl))
              (sent (4 ∷ [])))
            (notice 4 refl refl))
          (acknowledge 4 refl refl))
        (hear 4 [] refl))
      heard

counted : moves_of stopped_one ≡ 6
unfolding moves_of
counted = refl

none_waits : {b : Bool} → b ≡ false → b ≡ true → ⊥
none_waits e h = cc

StopPollers-Returned_example : All (λ (p : ℕ). (heard_of p).phase ≡ returned) (4 ∷ [])
StopPollers-Returned_example =
    StopPollers-Returned running (4 ∷ []) (4 ∷ [])
      (record { manager = finished; pollers = heard_of }) (λ p h. absurd (none_waits refl h))
      stopped_one refl

StopPollers-progress_example :
    (t : System) × Reaches (record { manager = sending [] (4 ∷ []); pollers = told }) t
    × (t.manager ≡ finished)
StopPollers-progress_example =
    StopPollers-progress running (4 ∷ []) (4 ∷ [])
      (record { manager = sending [] (4 ∷ []); pollers = told }) (λ i. i, tt) (λ i. i, tt)
      (λ p i. record { polls = refl; no_stop = refl; no_ack = refl }) (λ p i. i)
      (after start (send 4 [] (4 ∷ []) refl))

StopPollers-bounded_example : moves_of stopped_one ≤ 6
StopPollers-bounded_example =
    StopPollers-bounded running (4 ∷ []) (4 ∷ [])
      (record { manager = finished; pollers = heard_of }) (λ p e. not_busy e) (λ p. refl)
      stopped_one
  where
    not_busy : polling ≡ stopping → ⊥
    not_busy e = cc
