-- ===== src/Pollers/Shutdown/Ready.antt =====
-- What holds while StopPollers runs, of the pollers that it has yet to send to and to hear from
-- (poller.go, lines 124 to 147 and 149 to 194).
use swf4go.Prelude.{
  ℕ, Bool, true, false, List, [], ◌∷◌, ◌≡◌, refl, ap, ◌⊎◌, inl, inr, eqb, if◌then◌else◌, arith,
}
use swf4go.Pollers.Shutdown.{
  polling, stopping, returned, Poller, StopPollers, sending, awaiting, finished, System, set, Step,
  send, sent, hear, heard, round, notice, acknowledge, Reaches, start, after,
}
use swf4go.Pollers.Shutdown.Stopped.{set_all, set_rest}

abbrev pub In : ℕ → List ℕ → Type 0
In q [] = ⊥
In q (p ∷ ps) = (p ≡ q) ⊎ In q ps

-- A list in which no poller stands twice.
abbrev pub Distinct : List ℕ → Type 0
Distinct [] = Unit {0}
Distinct (p ∷ ps) = (In p ps → ⊥) × Distinct ps

-- A poller that runs, and whose channels are empty.
pub record IsRunning (x : Poller) : Type 0 where
  pub polls : x.phase ≡ polling
  pub no_stop : x.stop ≡ false
  pub no_ack : x.stop_ack ≡ false

-- A poller that was sent a stop whose acknowledgement nobody has received.
pub data Owes (x : Poller) : Type 0 where
  told : x.phase ≡ polling → x.stop ≡ true → x.stop_ack ≡ false → Owes x
  noticed : x.phase ≡ stopping → x.stop ≡ false → x.stop_ack ≡ false → Owes x
  answered : x.phase ≡ returned → x.stop ≡ false → x.stop_ack ≡ true → Owes x

unfoldable pub Ready : StopPollers → (ℕ → Poller) → Type 0
Ready (sending todo all) f =
    Distinct todo
    × Distinct all
    × ((q : ℕ) → In q todo → IsRunning (f q))
    × ((q : ℕ) → In q all → In q todo ⊎ Owes (f q))
Ready (awaiting todo) f = Distinct todo × ((q : ℕ) → In q todo → Owes (f q))
Ready finished f = Unit {0}

-- A change of one poller that keeps what is known of it keeps the rest.
set-Ready :
    (m : StopPollers) (f : ℕ → Poller) (p : ℕ) (x : Poller)
    → (IsRunning (f p) → IsRunning x)
    → (Owes (f p) → Owes x)
    → Ready m f
    → Ready m (set p x f)
unfolding Ready
set-Ready (sending todo all) f p x running owing (d, da, fresh, known) = (
  d,
  da,
  set_all (λ q y. In q todo → IsRunning y) f p x fresh (λ i. running (fresh p i)),
  set_all (λ q y. In q all → In q todo ⊎ Owes y) f p x known
      (λ i. elim (known p i) [ inl j ↦ inl j | inr o ↦ inr (owing o) ]),
)
set-Ready (awaiting todo) f p x running owing (d, owed) =
    (d, set_all (λ q y. In q todo → Owes y) f p x owed (λ i. owing (owed p i)))
set-Ready finished f p x running owing h = tt

pub send-Ready :
    (f : ℕ → Poller) (p : ℕ) (todo all : List ℕ)
    → Ready (sending (p ∷ todo) all) f
    → Ready (sending todo all) (set p (record (f p) { stop = true }) f)
unfolding Ready
send-Ready f p todo all ((apart, d), da, fresh, known) =
    let now = fresh p (inl refl) in
    (
      d,
      da,
      set_all (λ q y. In q todo → IsRunning y) f p _ (λ q i. fresh q (inr i))
          (λ i. absurd (apart i)),
      set_rest (λ q y. In q all → In q todo ⊎ Owes y) f p _
          (λ q differs i. kept q differs (known q i)) (λ i. inr (told now.polls refl now.no_ack)),
    )
  where
    kept : (q : ℕ) → (p ≡ q → ⊥) → In q (p ∷ todo) ⊎ Owes (f q) → In q todo ⊎ Owes (f q)
    kept q differs (inl (inl e)) = absurd (differs e)
    kept q differs (inl (inr j)) = inl j
    kept q differs (inr o) = inr o

pub sent-Ready : (f : ℕ → Poller) (all : List ℕ) → Ready (sending [] all) f → Ready (awaiting all) f
unfolding Ready
sent-Ready f all (d, da, fresh, known) =
    (da, λ q i. elim (known q i) [ inl none ↦ absurd none | inr o ↦ o ])

pub hear-Ready :
    (f : ℕ → Poller) (p : ℕ) (todo : List ℕ)
    → Ready (awaiting (p ∷ todo)) f
    → Ready (awaiting todo) (set p (record (f p) { stop_ack = false }) f)
unfolding Ready
hear-Ready f p todo ((apart, d), owed) =
    (d, set_all (λ q y. In q todo → Owes y) f p _ (λ q i. owed q (inr i)) (λ i. absurd (apart i)))

pub notice-Ready :
    (m : StopPollers) (f : ℕ → Poller) (p : ℕ)
    → (f p).phase ≡ polling
    → (f p).stop ≡ true
    → Ready m f
    → Ready m (set p (record (f p) { phase = stopping; stop = false }) f)
notice-Ready m f p on stop = set-Ready m f p _ (λ r. absurd (bools r.no_stop stop)) owes
  where
    bools : {b : Bool} → b ≡ false → b ≡ true → ⊥
    bools e h = cc

    owes : Owes (f p) → Owes (record (f p) { phase = stopping; stop = false })
    owes (told a b c) = noticed refl refl c
    owes (noticed a b c) = absurd (bools b stop)
    owes (answered a b c) = absurd (bools b stop)

pub acknowledge-Ready :
    (m : StopPollers) (f : ℕ → Poller) (p : ℕ)
    → (f p).phase ≡ stopping
    → (f p).stop_ack ≡ false
    → Ready m f
    → Ready m (set p (record (f p) { phase = returned; stop_ack = true }) f)
acknowledge-Ready m f p on room = set-Ready m f p _ (λ r. absurd (phases r.polls)) owes
  where
    phases : (f p).phase ≡ polling → ⊥
    phases e = cc

    owes : Owes (f p) → Owes (record (f p) { phase = returned; stop_ack = true })
    owes (told a b c) = absurd (phases a)
    owes (noticed a b c) = answered refl b refl
    owes (answered a b c) = cc

Step-Ready : (s t : System) → Step s t → Ready s.manager s.pollers → Ready t.manager t.pollers
unfolding Ready
Step-Ready _ _ (send {f = f} p todo all room) h = send-Ready f p todo all h
Step-Ready _ _ (sent {f = f} all) h = sent-Ready f all h
Step-Ready _ _ (hear {f = f} p todo ack) h = hear-Ready f p todo h
Step-Ready _ _ heard h = tt
Step-Ready _ _ (round p on no_stop) h = h
Step-Ready _ _ (notice {f = f} {m = m} p on stop) h = notice-Ready m f p on stop h
Step-Ready _ _ (acknowledge {f = f} {m = m} p on room) h = acknowledge-Ready m f p on room h

pub Reaches-Ready :
    (s t : System) → Reaches s t → Ready s.manager s.pollers → Ready t.manager t.pollers
Reaches-Ready s _ start h = h
Reaches-Ready s u (after {t = t} r st) h = Step-Ready t u st (Reaches-Ready s t r h)

pub set_same : (p : ℕ) (x : Poller) (f : ℕ → Poller) → set p x f p ≡ x
set_same p x f =
    let same : eqb p p ≡ true = ground arith in ap (λ (b : Bool). if b then x else f p) same
