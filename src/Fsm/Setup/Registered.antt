-- ===== src/Fsm/Setup/Registered.antt =====
-- Which states an FSM has after its setup (fsm.go, lines 64 to 183).
use swf4go.Prelude.{
  String, ◌≡◌, refl, ◌∙◌, some-injective, subst, Option, none, some, ◌==◌, inl, inr, Bool-cases,
  eq_refl,
}
use swf4go.Prelude.Map.{lookup, lookup-insert}
use swf4go.Go.{returns, returns-injective}
use swf4go.Fsm.Serialization.{StateSerializer}
use swf4go.Fsm.Context.{FsmState}
use swf4go.Fsm.Machine.{Fsm}
use swf4go.Fsm.Setup.{
  entries_of, add_state, add_initial_state, add_error_state, add_complete_state,
  default_error_state, default_complete_state, or_default, with_error_state, with_complete_state,
  initialized, init_from, init,
}

module _ {ℓ} {V : Type ℓ} where
  -- some state has the name
  abbrev pub HasState : Fsm V → String → Type ℓ
  HasState f name = (s : FsmState V) × (lookup name (entries_of f.states) ≡ some s)

  -- A special state, where there is one, is among the states.
  abbrev Named : Fsm V → Option (FsmState V) → Type ℓ
  Named f o = (s : FsmState V) → o ≡ some s → HasState f s.name

  -- What AddState and its kin keep: each special state's name leads to a state.
  pub record Registered (f : Fsm V) : Type ℓ where
    pub initial : Named f f.initial_state
    pub error : Named f f.error_state
    pub complete : Named f f.complete_state

  -- adding a state takes no name away, and adds its own
  kept :
      (f : Fsm V) (s : FsmState V) (name : String) → HasState f name → HasState (add_state f s) name
  unfolding add_state
  kept f s name (t, e) = elim (Bool-cases (s.name == name)) [
    | inl same ↦ (s, lookup-insert s.name name s (entries_of f.states) ∙ rw same refl)
    | inr other ↦ (t, lookup-insert s.name name s (entries_of f.states) ∙ rw other e)
  ]

  added : (f : Fsm V) (s : FsmState V) → HasState (add_state f s) s.name
  unfolding add_state
  added f s = (s, lookup-insert s.name s.name s (entries_of f.states) ∙ rw (eq_refl s.name) refl)

  added_as : (f : Fsm V) (s t : FsmState V) → some s ≡ some t → HasState (add_state f s) t.name
  added_as f s t e =
      subst (λ (x : FsmState V). HasState (add_state f s) x.name) (some-injective e) (added f s)

  add_state-Registered : (f : Fsm V) (s : FsmState V) → Registered f → Registered (add_state f s)
  unfolding add_state
  add_state-Registered f s r = record {
    initial = λ t e. kept f s t.name (r.initial t e);
    error = λ t e. kept f s t.name (r.error t e);
    complete = λ t e. kept f s t.name (r.complete t e);
  }

  add_initial_state-Registered :
      (f : Fsm V) (s : FsmState V) → Registered f → Registered (add_initial_state f s)
  unfolding add_initial_state
  add_initial_state-Registered f s r =
      let q = add_state-Registered f s r in
      record { initial = added_as f s; error = q.error; complete = q.complete }

  add_error_state-Registered :
      (f : Fsm V) (s : FsmState V) → Registered f → Registered (add_error_state f s)
  unfolding add_error_state
  add_error_state-Registered f s r =
      let q = add_state-Registered f s r in
      record { initial = q.initial; error = added_as f s; complete = q.complete }

  add_complete_state-Registered :
      (f : Fsm V) (s : FsmState V) → Registered f → Registered (add_complete_state f s)
  unfolding add_complete_state
  add_complete_state-Registered f s r =
      let q = add_state-Registered f s r in
      record { initial = q.initial; error = q.error; complete = added_as f s }

  -- A way to set up an FSM: AddState and its kin, in any order, on a fresh one.
  pub data SetUp (fresh : Fsm V) : Fsm V → Type ℓ where
    begin : SetUp fresh fresh
    state : {f : Fsm V} (s : FsmState V) → SetUp fresh f → SetUp fresh (add_state f s)
    initial : {f : Fsm V} (s : FsmState V) → SetUp fresh f → SetUp fresh (add_initial_state f s)
    error : {f : Fsm V} (s : FsmState V) → SetUp fresh f → SetUp fresh (add_error_state f s)
    complete : {f : Fsm V} (s : FsmState V) → SetUp fresh f → SetUp fresh (add_complete_state f s)

  SetUp-Registered : {fresh f : Fsm V} → Registered fresh → SetUp fresh f → Registered f
  SetUp-Registered r begin = r
  SetUp-Registered r (state s u) = add_state-Registered _ s (SetUp-Registered r u)
  SetUp-Registered r (initial s u) = add_initial_state-Registered _ s (SetUp-Registered r u)
  SetUp-Registered r (error s u) = add_error_state-Registered _ s (SetUp-Registered r u)
  SetUp-Registered r (complete s u) = add_complete_state-Registered _ s (SetUp-Registered r u)

  -- Every special state is there, under a name that leads to a state, and there is a serializer.
  pub record IsInitialized (f : Fsm V) : Type ℓ where
    pub registered : Registered f
    pub initial : FsmState V
    pub has_initial : f.initial_state ≡ some initial
    pub error : FsmState V
    pub has_error : f.error_state ≡ some error
    pub complete : FsmState V
    pub has_complete : f.complete_state ≡ some complete
    pub serializer : StateSerializer V
    pub has_serializer : f.serializer ≡ some serializer

  with_error_state-Registered :
      (o : Option (FsmState V)) (f : Fsm V) (s : FsmState V)
      → f.error_state ≡ o
      → Registered f
      → let g = with_error_state o f s in
        Registered g
        × (g.initial_state ≡ f.initial_state)
        × ((x : FsmState V) × (g.error_state ≡ some x))
  unfolding with_error_state add_error_state add_state
  with_error_state-Registered none f s e r = (add_error_state-Registered f s r, refl, (s, refl))
  with_error_state-Registered (some x) f s e r = (r, refl, (x, e))

  with_complete_state-Registered :
      (o : Option (FsmState V)) (f : Fsm V) (s : FsmState V)
      → f.complete_state ≡ o
      → Registered f
      → let g = with_complete_state o f s in
        Registered g
        × (g.initial_state ≡ f.initial_state)
        × (g.error_state ≡ f.error_state)
        × ((x : FsmState V) × (g.complete_state ≡ some x))
  unfolding with_complete_state add_complete_state add_state
  with_complete_state-Registered none f s e r =
      (add_complete_state-Registered f s r, refl, refl, (s, refl))
  with_complete_state-Registered (some x) f s e r = (r, refl, refl, (x, e))

  initialized-IsInitialized :
      (json : StateSerializer V) (f : Fsm V) (s : FsmState V)
      → f.initial_state ≡ some s
      → Registered f
      → IsInitialized (initialized json f)
  unfolding initialized
  initialized-IsInitialized json f s e r =
      let serializer = or_default f.serializer json in
      let (r₁, i₁, (x₁, e₁)) =
        with_error_state-Registered f.error_state f (default_error_state (some serializer)) refl
          r in
      let g = with_error_state f.error_state f (default_error_state (some serializer)) in
      let (r₂, i₂, e₂, (x₂, c₂)) =
        with_complete_state-Registered g.complete_state g default_complete_state refl r₁ in
      record {
        registered = record { initial = r₂.initial; error = r₂.error; complete = r₂.complete };
        initial = s;
        has_initial = i₂ ∙ i₁ ∙ e;
        error = x₁;
        has_error = e₂ ∙ e₁;
        complete = x₂;
        has_complete = c₂;
        serializer = serializer;
        has_serializer = refl;
      }

  init-eq-returns :
      (o : Option (FsmState V)) (json : StateSerializer V) (f g : Fsm V)
      → init_from o json f ≡ returns g
      → (s : FsmState V) × (o ≡ some s) × (initialized json f ≡ g)
  unfolding init_from
  init-eq-returns none json f g h = cc
  init-eq-returns (some s) json f g h = (s, refl, returns-injective h)

  -- However an FSM was set up from one whose special states are registered, for which none will do, if Init returns then it has an initial,
  -- an error and a complete state, each under a name that leads to a state, and a serializer.
  pub init-IsInitialized :
      (json : StateSerializer V) (fresh f g : Fsm V)
      → Registered fresh
      → SetUp fresh f
      → init json f ≡ returns g
      → IsInitialized g
  unfolding init
  init-IsInitialized json fresh f g r u h =
      let (s, e, same) = init-eq-returns f.initial_state json f g h in
      subst IsInitialized same (initialized-IsInitialized json f s e (SetUp-Registered r u))
