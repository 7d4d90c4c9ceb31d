-- ===== src/Pollers/Shutdown/Progress.antt =====
-- That StopPollers can always go on (poller.go, lines 124 to 147 and 149 to 194).
use swf4go.Prelude.{ℕ, true, false, List, [], ◌∷◌, ◌≡◌, refl, ap, ◌∙◌, inl}
use swf4go.Pollers.Shutdown.{
  polling, stopping, Poller, StopPollers, sending, awaiting, finished, System, Step, send, sent,
  hear, heard, notice, acknowledge, Reaches, start, after,
}
use swf4go.Pollers.Shutdown.Ready.{
  In, Distinct, IsRunning, Owes, told, noticed, answered, Ready, send-Ready, sent-Ready, hear-Ready,
  notice-Ready, acknowledge-Ready, Reaches-Ready, set_same,
}

-- A state from which the manager can still finish.
abbrev Finishes : System → Type 0
Finishes s = (t : System) × Reaches s t × (t.manager ≡ finished)

Reaches_trans : {s t u : System} → Reaches s t → Reaches t u → Reaches s u
Reaches_trans r start = r
Reaches_trans r (after q st) = after (Reaches_trans r q) st

earlier : {s t : System} → Step s t → Finishes t → Finishes s
earlier st (u, r, e) = (u, Reaches_trans (after start st) r, e)

module _ (p : ℕ) (todo : List ℕ)
    (rest : (f : ℕ → Poller)
      → Ready (awaiting todo) f
      → Finishes (record { manager = awaiting todo; pollers = f })) where
  hear_next :
      (f : ℕ → Poller)
      → Ready (awaiting (p ∷ todo)) f
      → (f p).stop_ack ≡ true
      → Finishes (record { manager = awaiting (p ∷ todo); pollers = f })
  hear_next f h ack = earlier (hear p todo ack) (rest _ (hear-Ready f p todo h))

  acknowledge_next :
      (f : ℕ → Poller)
      → Ready (awaiting (p ∷ todo)) f
      → (f p).phase ≡ stopping
      → (f p).stop_ack ≡ false
      → Finishes (record { manager = awaiting (p ∷ todo); pollers = f })
  acknowledge_next f h on room = earlier (acknowledge p on room) (
      hear_next _ (acknowledge-Ready _ f p on room h)
        (ap (λ (x : Poller). x.stop_ack) (set_same p _ f)))

  notice_next :
      (f : ℕ → Poller)
      → Ready (awaiting (p ∷ todo)) f
      → (f p).phase ≡ polling
      → (f p).stop ≡ true
      → (f p).stop_ack ≡ false
      → Finishes (record { manager = awaiting (p ∷ todo); pollers = f })
  notice_next f h on stop room =
      let same = set_same p (record (f p) { phase = stopping; stop = false }) f in
      earlier (notice p on stop) (
        acknowledge_next _ (notice-Ready _ f p on stop h) (ap (λ (x : Poller). x.phase) same)
          (ap (λ (x : Poller). x.stop_ack) same ∙ room))

  owed_next :
      (f : ℕ → Poller)
      → Ready (awaiting (p ∷ todo)) f
      → Owes (f p)
      → Finishes (record { manager = awaiting (p ∷ todo); pollers = f })
  owed_next f h (told on stop room) = notice_next f h on stop room
  owed_next f h (noticed on stop room) = acknowledge_next f h on room
  owed_next f h (answered on stop ack) = hear_next f h ack

await-Finishes :
    (todo : List ℕ) (f : ℕ → Poller)
    → Ready (awaiting todo) f
    → Finishes (record { manager = awaiting todo; pollers = f })
unfolding Ready
await-Finishes [] f h = (_, after start heard, refl)
await-Finishes (p ∷ todo) f h = owed_next p todo (await-Finishes todo) f h (h.1 p (inl refl))

send-Finishes :
    (todo all : List ℕ) (f : ℕ → Poller)
    → Ready (sending todo all) f
    → Finishes (record { manager = sending todo all; pollers = f })
unfolding Ready
send-Finishes [] all f h = earlier (sent all) (await-Finishes all f (sent-Ready f all h))
send-Finishes (p ∷ todo) all f h =
    let now = h.2 p (inl refl) in
    earlier (send p todo all now.no_stop) (send-Finishes todo all _ (send-Ready f p todo all h))

Ready-Finishes :
    (m : StopPollers) (f : ℕ → Poller) → Ready m f → Finishes (record { manager = m; pollers = f })
Ready-Finishes (sending todo all) f h = send-Finishes todo all f h
Ready-Finishes (awaiting todo) f h = await-Finishes todo f h
Ready-Finishes finished f h = (_, start, refl)

-- However far the loops and the manager have come, StopPollers can still return: it never waits for
-- what can no longer happen, where at the start the pollers that it stops run, with empty channels, and
-- stand once in the order in which it sends, and in the one in which it waits, which are of the same
-- pollers.
pub StopPollers-progress :
    (f : ℕ → Poller) (first second : List ℕ) (s : System)
    → Distinct first
    → Distinct second
    → ((p : ℕ) → In p first → IsRunning (f p))
    → ((p : ℕ) → In p second → In p first)
    → Reaches (record { manager = sending first second; pollers = f }) s
    → (t : System) × Reaches s t × (t.manager ≡ finished)
unfolding Ready
StopPollers-progress f first second s d d' running same r =
    Ready-Finishes s.manager s.pollers (Reaches-Ready _ s r (d, d', running, λ q i. inl (same q i)))
