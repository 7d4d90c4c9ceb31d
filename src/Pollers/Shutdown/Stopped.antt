-- ===== src/Pollers/Shutdown/Stopped.antt =====
-- What is so when StopPollers returns (poller.go, lines 173 to 184).
use swf4go.Prelude.{
  ℕ, Bool, true, false, List, [], ◌∷◌, ◌++◌, ◌≡◌, refl, sym, ap, subst, ◌∙◌, inl, inr, Bool-cases,
  append_assoc, append-nil, eqb, if◌then◌else◌, All, All-append, arith,
}
use swf4go.Pollers.Shutdown.{
  Phase, polling, returned, Poller, StopPollers, sending, awaiting, finished, System, set, Step,
  send, sent, hear, heard, round, notice, acknowledge, Reaches, start, after,
}

abbrev Returned : (ℕ → Poller) → ℕ → Type 0
Returned f p = (f p).phase ≡ returned

-- A poller whose acknowledgement waits has returned.
abbrev pub Honest : (ℕ → Poller) → Type 0
Honest f = (p : ℕ) → (f p).stop_ack ≡ true → Returned f p

eqb-true : (p q : ℕ) → eqb p q ≡ true → p ≡ q
eqb-true p q h = ground arith

-- a fact on each poller, after a change of one
pub set_rest :
    (P : ℕ → Poller → Type 0) (f : ℕ → Poller) (p : ℕ) (x : Poller)
    → ((q : ℕ) → (p ≡ q → ⊥) → P q (f q))
    → P p x
    → (q : ℕ) → P q (set p x f q)
set_rest P f p x rest new q = elim (Bool-cases (eqb p q)) [
  | inl same ↦
      subst (P q) (ap (λ (b : Bool). if b then x else f q) (sym same))
        (subst (λ (r : ℕ). P r x) (eqb-true p q same) new)
  | inr other ↦
      subst (P q) (ap (λ (b : Bool). if b then x else f q) (sym other)) (rest q (λ e. ground arith))
]

pub set_all :
    (P : ℕ → Poller → Type 0) (f : ℕ → Poller) (p : ℕ) (x : Poller)
    → ((q : ℕ) → P q (f q))
    → P p x
    → (q : ℕ) → P q (set p x f q)
set_all P f p x all new = set_rest P f p x (λ q differs. all q) new

set_keeps :
    (f : ℕ → Poller) (p : ℕ) (x : Poller)
    → (Returned f p → x.phase ≡ returned)
    → (q : ℕ) → Returned f q
    → Returned (set p x f) q
set_keeps f p x new = set_all (λ q y. Returned f q → y.phase ≡ returned) f p x (λ q r. r) new

set-Honest :
    (f : ℕ → Poller) (p : ℕ) (x : Poller)
    → Honest f
    → (x.stop_ack ≡ true → x.phase ≡ returned)
    → Honest (set p x f)
set-Honest f p x honest new =
    set_all (λ q y. y.stop_ack ≡ true → y.phase ≡ returned) f p x honest new

All-weaken : (P Q : ℕ → Type 0) (xs : List ℕ) → ((x : ℕ) → P x → Q x) → All P xs → All Q xs
All-weaken P Q [] weaken h = tt
All-weaken P Q (x ∷ xs) weaken h = (weaken x h.0, All-weaken P Q xs weaken h.1)

-- The acknowledgements that have been received are of pollers that have returned.
Place : List ℕ → StopPollers → (ℕ → Poller) → Type 0
Place ys (sending todo all) f = all ≡ ys
Place ys (awaiting todo) f = (front : List ℕ) × (ys ≡ front ++ todo) × All (Returned f) front
Place ys finished f = All (Returned f) ys

Place_keeps :
    (ys : List ℕ) (m : StopPollers) (f g : ℕ → Poller)
    → ((q : ℕ) → Returned f q → Returned g q)
    → Place ys m f
    → Place ys m g
unfolding Place
Place_keeps ys (sending todo all) f g keep h = h
Place_keeps ys (awaiting todo) f g keep (front, e, r) =
    (front, e, All-weaken (Returned f) (Returned g) front keep r)
Place_keeps ys finished f g keep h = All-weaken (Returned f) (Returned g) ys keep h

not_returned : {x : Phase} → x ≡ polling → x ≡ returned → ⊥
not_returned e r = cc

empty_ack : {b : Bool} → b ≡ false → b ≡ true → ⊥
empty_ack e h = cc

Step-Place :
    (ys : List ℕ) (s t : System)
    → Step s t
    → Honest s.pollers × Place ys s.manager s.pollers
    → Honest t.pollers × Place ys t.manager t.pollers
unfolding Place
Step-Place ys _ _ (send {f = f} p todo all room) (honest, known) =
    (set-Honest f p _ honest (honest p), known)
Step-Place ys _ _ (sent all) (honest, known) = (honest, ([], sym known, tt))
Step-Place ys _ _ (hear {f = f} p todo ack) (honest, (front, e, r)) =
    let keep = set_keeps f p (record (f p) { stop_ack = false }) (λ q. q) in
    let g = set p (record (f p) { stop_ack = false }) f in
    (
      set-Honest f p _ honest (λ h. absurd (empty_ack refl h)),
      (
        front ++ p ∷ [],
        e ∙ sym (append_assoc front (p ∷ []) todo),
        All-append (Returned g) front (p ∷ []) (All-weaken (Returned f) (Returned g) front keep r)
            (keep p (honest p ack), tt),
      ),
    )
Step-Place ys _ _ (heard {f = f}) (honest, (front, e, r)) =
    (honest, subst (All (Returned f)) (sym (e ∙ append-nil front)) r)
Step-Place ys _ _ (round p on no_stop) inv = inv
Step-Place ys _ _ (notice {f = f} {m = m} p on stop) (honest, h) = (
  set-Honest f p _ honest (λ ack. absurd (not_returned on (honest p ack))),
  Place_keeps ys m f _ (set_keeps f p _ (λ r. absurd (not_returned on r))) h,
)
Step-Place ys _ _ (acknowledge {f = f} {m = m} p on room) (honest, h) =
    (set-Honest f p _ honest (λ ack. refl), Place_keeps ys m f _ (set_keeps f p _ (λ r. refl)) h)

Reaches-Place :
    (ys : List ℕ) (s t : System)
    → Reaches s t
    → Honest s.pollers × Place ys s.manager s.pollers
    → Honest t.pollers × Place ys t.manager t.pollers
Reaches-Place ys s _ start inv = inv
Reaches-Place ys s u (after {t = t} r st) inv = Step-Place ys t u st (Reaches-Place ys s t r inv)

-- When StopPollers returns, every poller that it waited for has returned from PollUntilShutdownBy,
-- however the loops and the manager took turns, and whatever the orders in which the manager sends and
-- waits, where at the start only pollers that had returned left an acknowledgement waiting.
pub StopPollers-Returned :
    (f : ℕ → Poller) (first second : List ℕ) (t : System)
    → Honest f
    → Reaches (record { manager = sending first second; pollers = f }) t
    → t.manager ≡ finished
    → All (λ (p : ℕ). (t.pollers p).phase ≡ returned) second
unfolding Place
StopPollers-Returned f first second t honest r done =
    subst (λ (m : StopPollers). Place second m t.pollers) done
      (Reaches-Place second _ t r (honest, refl)).1
