-- ===== src/Pollers/Shutdown/Bounded.antt =====
-- How many steps StopPollers and the loops that it stops take (poller.go, lines 124 to 147 and 149 to
-- 194).
use swf4go.Prelude.{
  ℕ, zero, suc, ◌+◌, ◌*◌, ◌≤◌, ◌<◌, Bool, true, false, List, [], ◌∷◌, length, ◌≡◌, refl, sym, ap,
  ◌∙◌, inl, inr, Bool-cases, eqb, ltb, if◌then◌else◌, arith,
}
use swf4go.Pollers.Shutdown.{
  Phase, polling, stopping, returned, Poller, StopPollers, sending, awaiting, finished, System, set,
  Step, send, sent, hear, heard, round, notice, acknowledge, Reaches, start, after,
}
use swf4go.Pollers.Shutdown.Stopped.{set_rest, set_all}
use swf4go.Pollers.Shutdown.Ready.{In, set_same}

-- Whether a step is anything but a round of polling.
moves : {s t : System} → Step s t → ℕ
moves (round p on no_stop) = 0
moves _ = 1

unfoldable pub moves_of : {s t : System} → Reaches s t → ℕ
unfolding moves
moves_of start = 0
moves_of (after r st) = moves st + moves_of r

-- How many steps a loop has before it returns.
pending_of : Phase → Bool → ℕ
pending_of polling true = 2
pending_of polling false = 0
pending_of stopping stop = 1
pending_of returned stop = 0

pending : Poller → ℕ
unfolding pending_of
pending x = pending_of x.phase x.stop

total : (ℕ → Poller) → ℕ → ℕ
unfolding pending
total f zero = 0
total f (suc n) = total f n + pending (f n)

set_other : (p q : ℕ) (x : Poller) (f : ℕ → Poller) → (p ≡ q → ⊥) → set p x f q ≡ f q
set_other p q x f differs =
    let other : eqb p q ≡ false = ground arith in ap (λ (b : Bool). if b then x else f q) other

total-set_beyond :
    (f : ℕ → Poller) (p : ℕ) (x : Poller) (n : ℕ) → n ≤ p → total (set p x f) n ≡ total f n
unfolding total
total-set_beyond f p x zero h = refl
total-set_beyond f p x (suc n) h =
    let ih = total-set_beyond f p x n (omega arith) in
    let same = ap pending (set_other p n x f (λ e. omega (arith, h, e))) in omega (arith, ih, same)

total-set :
    (f : ℕ → Poller) (p : ℕ) (x : Poller) (n : ℕ)
    → p < n
    → total (set p x f) n + pending (f p) ≡ total f n + pending x
unfolding total
total-set f p x zero h = absurd (omega (arith, h))
total-set f p x (suc n) h = elim (Bool-cases (eqb p n)) [
  | inl same ↦
      let e : p ≡ n = ground arith in
      let rest = total-set_beyond f p x n (omega (arith, e)) in
      let new = ap (λ (q : ℕ). pending (set p x f q)) (sym e) ∙ ap pending (set_same p x f) in
      let old = ap (λ (q : ℕ). pending (f q)) e in omega (arith, rest, new, old)
  | inr other ↦
      let differs : p ≡ n → ⊥ = λ e. ground arith in
      let ih = total-set f p x n (ground arith) in
      let same = ap pending (set_other p n x f differs) in omega (arith, ih, same)
]

-- What the manager has yet to do, with the three steps that each stop still to send brings about.
left : StopPollers → ℕ
left (sending todo all) = 3 * length todo + length all + 2
left (awaiting todo) = length todo + 1
left finished = 0

-- Every stop still to send is for a poller below the number n, and no other poller has steps left.
abbrev Below : ℕ → StopPollers → Type 0
Below n (sending todo all) = (q : ℕ) → In q todo → q < n
Below n _ = Unit {0}

abbrev Still : ℕ → (ℕ → Poller) → Type 0
Still n f = (q : ℕ) → n ≤ q → pending (f q) ≡ 0

measure : ℕ → System → ℕ
unfolding left total
measure n s = left s.manager + total s.pollers n

pending_told : (phase : Phase) → pending_of phase true ≤ 2
unfolding pending_of
pending_told polling = omega arith
pending_told stopping = omega arith
pending_told returned = omega arith

-- a change of one poller below n
set-Still : (n : ℕ) (f : ℕ → Poller) (p : ℕ) (x : Poller) → p < n → Still n f → Still n (set p x f)
set-Still n f p x h still =
    set_rest (λ q y. n ≤ q → pending y ≡ 0) f p x (λ q differs. still q)
      (λ beyond. absurd (omega (arith, h, beyond)))

has_steps : (n : ℕ) (f : ℕ → Poller) (p : ℕ) → Still n f → 1 ≤ pending (f p) → p < n
has_steps n f p still some = elim (Bool-cases (ltb p n)) [
  | inl h ↦ ground arith
  | inr h ↦
      let beyond : n ≤ p = ground arith in
      let nothing = still p beyond in absurd (omega (arith, some, nothing))
]

total_cong :
    (f g : ℕ → Poller) → ((q : ℕ) → pending (g q) ≡ pending (f q)) → (n : ℕ) → total g n ≡ total f n
unfolding total
total_cong f g same zero = refl
total_cong f g same (suc n) =
    let ih = total_cong f g same n in let here = same n in omega (arith, ih, here)

noticing : (x : Poller) → x.phase ≡ polling → x.stop ≡ true → pending x ≡ 2
unfolding pending pending_of
noticing x on stop =
    ap (λ (y : Phase). pending_of y x.stop) on ∙ ap (λ (b : Bool). pending_of polling b) stop

-- The number of steps left after a step, with that step, is at most the number before it.
Step-measure :
    (n : ℕ) (s t : System) (st : Step s t)
    → Below n s.manager × Still n s.pollers
    → (Below n t.manager × Still n t.pollers) × (moves st + measure n t ≤ measure n s)
unfolding moves measure left total pending pending_of
Step-measure n _ _ (send {f = f} p todo all room) (below, still) =
    let x = record (f p) { stop = true } in
    let p_below = below p (inl refl) in
    let change = total-set f p x n p_below in
    let new = pending_told (f p).phase in
    ((λ q i. below q (inr i), set-Still n f p x p_below still), omega (arith, change, new))
Step-measure n _ _ (sent {f = f} all) (below, still) = ((tt, still), omega arith)
Step-measure n _ _ (hear {f = f} p todo ack) (below, still) =
    let x = record (f p) { stop_ack = false } in
    let same = set_all (λ q y. pending y ≡ pending (f q)) f p x (λ q. refl) refl in
    let kept = total_cong f (set p x f) same n in
    ((tt, λ q beyond. same q ∙ still q beyond), omega (arith, kept))
Step-measure n _ _ (heard {f = f}) (below, still) = ((tt, still), omega arith)
Step-measure n _ _ (round p on no_stop) h = (h, omega arith)
Step-measure n _ _ (notice {f = f} {m = m} p on stop) (below, still) =
    let x = record (f p) { phase = stopping; stop = false } in
    let had = noticing (f p) on stop in
    let p_below = has_steps n f p still (omega (arith, had)) in
    let change = total-set f p x n p_below in
    ((below, set-Still n f p x p_below still), omega (arith, change, had))
Step-measure n _ _ (acknowledge {f = f} {m = m} p on room) (below, still) =
    let x = record (f p) { phase = returned; stop_ack = true } in
    let had = ap (λ (y : Phase). pending_of y (f p).stop) on in
    let p_below = has_steps n f p still (omega (arith, had)) in
    let change = total-set f p x n p_below in
    ((below, set-Still n f p x p_below still), omega (arith, change, had))

Reaches-measure :
    (n : ℕ) (s t : System) (r : Reaches s t)
    → Below n s.manager × Still n s.pollers
    → (Below n t.manager × Still n t.pollers) × (moves_of r + measure n t ≤ measure n s)
unfolding moves_of
Reaches-measure n s _ start h = (h, omega arith)
Reaches-measure n s u (after {t = t} r st) h =
    let (known, earlier) = Reaches-measure n s t r h in
    let (next, later) = Step-measure n t u st known in (next, omega (arith, earlier, later))

-- a number above each of a list
above : List ℕ → ℕ
above [] = 0
above (p ∷ ps) = suc p + above ps

In-above : (q : ℕ) (ps : List ℕ) → In q ps → q < above ps
unfolding above
In-above q [] i = elim i [ ]
In-above q (p ∷ ps) (inl e) = omega (arith, e)
In-above q (p ∷ ps) (inr i) = let ih = In-above q ps i in omega (arith, ih)

untold :
    (phase : Phase) (stop : Bool)
    → (phase ≡ stopping → ⊥)
    → stop ≡ false
    → pending_of phase stop ≡ 0
unfolding pending_of
untold polling true busy no_stop = absurd cc
untold polling false busy no_stop = refl
untold stopping stop busy no_stop = absurd (busy refl)
untold returned stop busy no_stop = refl

pending-untold : (x : Poller) → (x.phase ≡ stopping → ⊥) → x.stop ≡ false → pending x ≡ 0
unfolding pending
pending-untold x busy no_stop = untold x.phase x.stop busy no_stop

total-still : (f : ℕ → Poller) → ((q : ℕ) → pending (f q) ≡ 0) → (n : ℕ) → total f n ≡ 0
unfolding total
total-still f still zero = refl
total-still f still (suc n) =
    let ih = total-still f still n in let here = still n in omega (arith, ih, here)

-- Where at the start no loop has been sent a stop, or is about to acknowledge one, the manager and the
-- loops together take at most three steps for each stop that the manager sends, one for each
-- acknowledgement that it waits for, and two more, the rounds of polling not counted, however they
-- take turns.
pub StopPollers-bounded :
    (f : ℕ → Poller) (first second : List ℕ) (s : System)
    → ((p : ℕ) → (f p).phase ≡ stopping → ⊥)
    → ((p : ℕ) → (f p).stop ≡ false)
    → (r : Reaches (record { manager = sending first second; pollers = f }) s)
    → moves_of r ≤ 3 * length first + length second + 2
unfolding measure left
StopPollers-bounded f first second s busy no_stop r =
    let still = λ (p : ℕ). pending-untold (f p) (busy p) (no_stop p) in
    let n = above first in
    let bound = (Reaches-measure n _ s r (λ q i. In-above q first i, λ q beyond. still q)).1 in
    let nothing = total-still f still n in omega (arith, bound, nothing)
