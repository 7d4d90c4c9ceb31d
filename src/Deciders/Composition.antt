-- ===== src/Deciders/Composition.antt =====
-- What composing deciders comes to (deciders.go, lines 29 to 61).
use swf4go.Prelude.{
  ◌≡◌, refl, sym, ap, ◌∙◌, Option, none, some, List, [], ◌∷◌, ◌++◌, append_assoc, append-nil,
  fun_ext, String,
}
use swf4go.Go.{Exec, returns, panics, ◌>>=◌, bind-eq-returns, returns-injective}
use swf4go.Protocol.Decision.{Decision}
use swf4go.Protocol.HistoryEvent.{HistoryEvent}
use swf4go.Fsm.Outcome.{
  Outcome, continue_outcome, transition_outcome, stay_outcome, complete_outcome, error_outcome,
}
use swf4go.Fsm.Context.{Decider, FsmContext}
use swf4go.Deciders.{contribute, decide_with, composed_decider, default_decider}

-- The outcome names a state, or keeps the current one
pub data Settled {ℓ} {V : Type ℓ} : Outcome V → Type ℓ where
  stays : (v : Option V) (ds : List Decision) → Settled (stay_outcome v ds)
  transitions :
      (v : Option V) (s : String) (ds : List Decision) → Settled (transition_outcome v s ds)

module _ {ℓ} {V : Type ℓ} (ctx : FsmContext V) (h : HistoryEvent) where
  abbrev after : List (Decider V) → Option V → List Decision → Exec (Option (Outcome V))
  after es v ds = decide_with es ctx h v ds

  -- an outcome that contributes to an inner composition, and then to an outer one
  contribute_twice :
      (o : Option (Outcome V)) (v w : Option V) (outer ds : List Decision)
      (inner_next outer_next next : Option V → List Decision → Exec (Option (Outcome V)))
      → ((v' : Option V) (ds' : List Decision)
          → (inner_next v' ds' >>= λ x. contribute x w outer outer_next) ≡ next v' (outer ++ ds'))
      → (contribute o v ds inner_next >>= λ x. contribute x w outer outer_next)
        ≡ contribute o v (outer ++ ds) next
  unfolding contribute
  contribute_twice none v w outer ds inner_next outer_next next same = same v ds
  contribute_twice (some (continue_outcome v' more)) v w outer ds inner_next outer_next next same =
      same v' (ds ++ more) ∙ ap (next v') (sym (append_assoc outer ds more))
  contribute_twice (some (stay_outcome v' more)) v w outer ds inner_next outer_next next same =
      ap (λ (x : List Decision). returns (some (stay_outcome v' x)))
        (sym (append_assoc outer ds more))
  contribute_twice (some (transition_outcome v' s more)) v w outer ds inner_next outer_next next
        same =
      ap (λ (x : List Decision). returns (some (transition_outcome v' s x)))
        (sym (append_assoc outer ds more))
  contribute_twice (some (complete_outcome v' more)) v w outer ds inner_next outer_next next same =
      ap (λ (x : List Decision). returns (some (transition_outcome v' "complete" x)))
        (sym (append_assoc outer ds more))
  contribute_twice (some (error_outcome s v' more)) v w outer ds inner_next outer_next next same =
      ap (λ (x : List Decision). returns (some (transition_outcome v' "error" x)))
        (sym (append_assoc outer ds more))

  decided_twice :
      (m : Exec (Option (Outcome V))) (v w : Option V) (outer ds : List Decision)
      (inner_next outer_next next : Option V → List Decision → Exec (Option (Outcome V)))
      → ((v' : Option V) (ds' : List Decision)
          → (inner_next v' ds' >>= λ x. contribute x w outer outer_next) ≡ next v' (outer ++ ds'))
      → (m >>= (λ o. contribute o v ds inner_next) >>= λ x. contribute x w outer outer_next)
        ≡ (m >>= λ o. contribute o v (outer ++ ds) next)
  decided_twice (panics p) v w outer ds inner_next outer_next next same = refl
  decided_twice (returns o) v w outer ds inner_next outer_next next same =
      contribute_twice o v w outer ds inner_next outer_next next same

  -- The composition of `ds` gives what the loop over `ds` and then `es` goes on with.
  decide_with-append :
      (ds es : List (Decider V)) (v w : Option V) (outer inner : List Decision)
      → (decide_with ds ctx h v inner >>= λ x. contribute x w outer (after es))
        ≡ decide_with (ds ++ es) ctx h v (outer ++ inner)
  unfolding decide_with contribute
  decide_with-append [] es v w outer inner = refl
  decide_with-append (d ∷ ds) es v w outer inner =
      decided_twice (d ctx h v) v w outer inner (after ds) (after es) (after (ds ++ es))
        (λ v' ds'. decide_with-append ds es v' w outer ds')

  decide_with-prefix :
      (front bs cs : List (Decider V)) (v : Option V) (inner : List Decision)
      → ((w : Option V) (more : List Decision) → after bs w more ≡ after cs w more)
      → after (front ++ bs) v inner ≡ after (front ++ cs) v inner
  unfolding decide_with
  decide_with-prefix [] bs cs v inner same = same v inner
  decide_with-prefix (a ∷ front) bs cs v inner same =
      ap
        (λ (next : Option V → List Decision → Exec (Option (Outcome V))).
          a ctx h v >>= λ o. contribute o v inner next)
        (fun_ext λ w. fun_ext λ more. decide_with-prefix front bs cs w more same)

  -- A composed decider among the deciders of another is as its own deciders in its place: the same
  -- outcome, data and decisions, and the same panic.
  pub composed_decider-flatten :
      (front bs cs : List (Decider V)) (v : Option V)
      → composed_decider (front ++ composed_decider bs ∷ cs) ctx h v
        ≡ composed_decider (front ++ (bs ++ cs)) ctx h v
  unfolding composed_decider decide_with
  composed_decider-flatten front bs cs v =
      decide_with-prefix front (composed_decider bs ∷ cs) (bs ++ cs) v [] λ w more. sym (
        ap (after (bs ++ cs) w) (sym (append-nil more))
        ∙ sym (decide_with-append bs cs w w more []))

  contribute-Settled :
      (o : Option (Outcome V)) (v w : Option V) (ds : List Decision) (o' : Option (Outcome V))
      → contribute o v ds (after (default_decider ∷ [])) ≡ returns o'
      → (x : Outcome V) × (o' ≡ some x) × Settled x
  unfolding contribute decide_with default_decider
  contribute-Settled none v w ds o' e = (_, sym (returns-injective e), stays _ _)
  contribute-Settled (some (continue_outcome v' more)) v w ds o' e =
      (_, sym (returns-injective e), stays _ _)
  contribute-Settled (some (stay_outcome v' more)) v w ds o' e =
      (_, sym (returns-injective e), stays _ _)
  contribute-Settled (some (transition_outcome v' s more)) v w ds o' e =
      (_, sym (returns-injective e), transitions _ _ _)
  contribute-Settled (some (complete_outcome v' more)) v w ds o' e =
      (_, sym (returns-injective e), transitions _ _ _)
  contribute-Settled (some (error_outcome s v' more)) v w ds o' e =
      (_, sym (returns-injective e), transitions _ _ _)

  -- A composed decider whose last decider is the default one never returns Pass or a ContinueOutcome,
  -- the two outcomes that `Tick` cannot merge into a state of the FSM.
  pub composed_decider-Settled :
      (ds : List (Decider V)) (v : Option V) (o : Option (Outcome V))
      → composed_decider (ds ++ default_decider ∷ []) ctx h v ≡ returns o
      → (x : Outcome V) × (o ≡ some x) × Settled x
  unfolding composed_decider
  composed_decider-Settled ds v o e =
      let (inner, p, q) =
        bind-eq-returns (decide_with ds ctx h v []) _
          (decide_with-append ds (default_decider ∷ []) v v [] [] ∙ e) in
      contribute-Settled inner v v [] o q
