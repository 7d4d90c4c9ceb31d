-- ===== src/Deciders/Typed/Checked.antt =====
-- Functions whose type has been checked, called (deciders.go, lines 91 to 196).
use swf4go.Prelude.{
  ℕ, suc, String, Bool, false, ◌≡◌, refl, sym, ap, ◌∙◌, ◌⊎◌, inl, inr, Option, none, some, List, [],
  ◌∷◌, map, ◌==◌, eqb, length, Bool-cases, arith, eq_iff,
}
use swf4go.Go.{Exec, returns, panics, Panic, of_value, ◌>>=◌, bind-eq-returns, returns-injective}
use swf4go.Protocol.HistoryEvent.{HistoryEvent}
use swf4go.Fsm.Outcome.{Outcome}
use swf4go.Fsm.Context.{Decider, FsmContext}
use swf4go.Deciders.Reflect.{
  GoType, pointer, type_string, swf_type, Value, context, event, datum, outcome, Function, function,
  type_of, value_of,
}
use swf4go.Deciders.Reflect.Calls.{call-run, call-zero}
use swf4go.Deciders.Typed.{
  types_match, type_check, to_outcome, first, call_of, marshalled_decider, typed_decider,
}

-- Where types with one text are one type: no second package is named swf.
abbrev pub Unambiguous : List GoType → List GoType → Type 0
Unambiguous [] us = Unit {0}
Unambiguous (t ∷ ts) [] = Unit {0}
Unambiguous (t ∷ ts) (u ∷ us) = (type_string t ≡ type_string u → t ≡ u) × Unambiguous ts us

cons-head {ℓ} : {A : Type ℓ} {x y : A} {xs ys : List A} → x ∷ xs ≡ y ∷ ys → x ≡ y
cons-head h = cc

cons-tail {ℓ} : {A : Type ℓ} {x y : A} {xs ys : List A} → x ∷ xs ≡ y ∷ ys → xs ≡ ys
cons-tail h = cc

same_types :
    (ts us : List GoType) → map type_string ts ≡ map type_string us → Unambiguous ts us → ts ≡ us
same_types [] [] h un = refl
same_types [] (u ∷ us) h un = cc
same_types (t ∷ ts) [] h un = cc
same_types (t ∷ ts) (u ∷ us) h (here, rest) =
    λ i. here (cons-head h) i ∷ same_types ts us (cons-tail h) rest i

types_match-map :
    (what : String) (i : ℕ) (rts : List String) (ts : List GoType) {x : Unit {0}}
    → length rts ≡ length ts
    → types_match what i rts ts ≡ returns x
    → rts ≡ map type_string ts
unfolding types_match
types_match-map what i [] [] e h = refl
types_match-map what i [] (t ∷ ts) e h = absurd (omega (arith, e))
types_match-map what i (rt ∷ rts) [] e h = cc
types_match-map what i (rt ∷ rts) (t ∷ ts) e h = elim (Bool-cases (rt == type_string t)) [
  | inl same ↦
      let p = types_match-map what (suc i) rts ts (omega (arith, e)) (rw same at h) in
      let q : rt ≡ type_string t = ground (arith, eq_iff rt (type_string t)) in cc
  | inr differs ↦ let p = rw differs at h in cc
]

-- Lists of as many types as texts.
length-map-eq :
    (ts us : List GoType) → map type_string ts ≡ map type_string us → length ts ≡ length us
length-map-eq [] [] h = refl
length-map-eq [] (u ∷ us) h = cc
length-map-eq (t ∷ ts) [] h = cc
length-map-eq (t ∷ ts) (u ∷ us) h = ap suc (length-map-eq ts us (cons-tail h))

type_check-function {ℓ} :
    {V : Type ℓ} (f : Function V) (inputs outputs : List String) {x : Unit {0}}
    → type_check (function f) inputs outputs ≡ returns x
    → (inputs ≡ map type_string f.inputs) × (outputs ≡ map type_string f.outputs)
unfolding type_check
type_check-function f inputs outputs h = elim (Bool-cases (eqb (length inputs) (length f.inputs))) [
  | inl same ↦
      let (x, p, q) = bind-eq-returns (types_match "argument" 0 inputs f.inputs) _ (rw same at h) in
      elim (Bool-cases (eqb (length outputs) (length f.outputs))) [
        | inl also ↦ (
          types_match-map "argument" 0 inputs f.inputs (ground arith) p,
          types_match-map "return value" 0 outputs f.outputs (ground arith) (rw also at q),
        )
        | inr wrong ↦ let r = rw wrong at q in cc
      ]
  | inr wrong ↦ let r = rw wrong at h in cc
]

-- What becomes of a function's run when a decider is made of it.
unpacked {ℓ κ} :
    {V : Type ℓ} {A : Type κ} (m : Exec (List (Value V))) (wrap : A → List (Value V))
    (read : Value V → Exec A)
    → ((a : A) → (returns (wrap a) >>= first >>= read) ≡ returns a)
    → ((rs : List (Value V)) → m ≡ returns rs → (a : A) × (rs ≡ wrap a))
    → ((a : A) × (m ≡ returns (wrap a)) × ((m >>= first >>= read) ≡ returns a))
      ⊎ ((p : Panic) × (m ≡ panics p) × ((m >>= first >>= read) ≡ panics p))
unpacked (panics p) wrap read back declared = inr (p, refl, refl)
unpacked (returns rs) wrap read back declared =
    let (a, e) = declared rs refl in
    inl (a, ap returns e, ap (λ x. returns x >>= first >>= read) e ∙ back a)

module _ {ℓ} {V : Type ℓ} (data_type : V → GoType) (implements : GoType → GoType → Bool)
    (f : Function V) (u : V) where
  abbrev pub handler_types : List GoType
  handler_types = pointer (swf_type "FSMContext") ∷ swf_type "HistoryEvent" ∷ data_type u ∷ []

  abbrev handler_texts : List String
  unfolding type_string
  handler_texts = "*swf.FSMContext" ∷ "swf.HistoryEvent" ∷ type_string (data_type u) ∷ []

  typed_decider-checked :
      {d : Decider V}
      → typed_decider data_type implements (some u) (function f) ≡ returns d
      → (map type_string
            (pointer (swf_type "FSMContext") ∷ swf_type "HistoryEvent" ∷ data_type u ∷ [])
          ≡ map type_string f.inputs)
        × (map type_string (swf_type "Outcome" ∷ []) ≡ map type_string f.outputs)
        × (d ≡ marshalled_decider data_type implements (function f))
  unfolding typed_decider type_string
  typed_decider-checked h =
      let (x, p, q) =
        bind-eq-returns (type_check (function f) handler_texts ("swf.Outcome" ∷ []))
          (λ x. returns (marshalled_decider data_type implements (function f))) h in
      let (ins, outs) = type_check-function f handler_texts ("swf.Outcome" ∷ []) p in
      (ins, outs, sym (returns-injective q))

  -- A decider that Typed makes of a function, without a panic, runs it on data of the type that was
  -- given, and returns or panics just as it does: nothing in the call by reflection panics. The function
  -- is not variadic, returns what its type declares, and no other package has types of the same text.
  pub typed_decider-runs :
      (d : Decider V)
      → typed_decider data_type implements (some u) (function f) ≡ returns d
      → f.variadic ≡ false
      → Unambiguous f.inputs handler_types
      → Unambiguous f.outputs (swf_type "Outcome" ∷ [])
      → ((vs rs : List (Value V))
          → f.outputs ≡ swf_type "Outcome" ∷ []
          → f.run vs ≡ returns rs
          → (o : Option (Outcome V)) × (rs ≡ outcome o ∷ []))
      → (ctx : FsmContext V) (h : HistoryEvent) (v : V) → data_type v ≡ data_type u
      → let ran = f.run (context ctx ∷ event h ∷ datum v ∷ []) in
        ((o : Option (Outcome V)) × (ran ≡ returns (outcome o ∷ []))
          × (d ctx h (some v) ≡ returns o))
        ⊎ ((p : Panic) × (ran ≡ panics p) × (d ctx h (some v) ≡ panics p))
  unfolding marshalled_decider call_of to_outcome value_of type_of
  typed_decider-runs d made plain ins outs declared ctx h v same =
      let (p, q, e) = typed_decider-checked made in
      let args = context ctx ∷ event h ∷ datum v ∷ [] in
      let i = same_types f.inputs _ (sym p) ins in
      let o = same_types f.outputs _ (sym q) outs in
      let c =
        call-run data_type implements f args plain (rw i (refl, (refl, (ap some same, tt)))) in
      rw (e, c)
        (unpacked (f.run args) (λ a. outcome a ∷ []) to_outcome (λ a. refl)
          (λ rs. declared args rs o))

  -- A decider that Typed makes of a function panics on data that is a nil interface, before the function
  -- is called.
  pub typed_decider-nil :
      (d : Decider V)
      → typed_decider data_type implements (some u) (function f) ≡ returns d
      → (ctx : FsmContext V) (h : HistoryEvent)
      → d ctx h none ≡ panics (of_value "reflect: Call using zero Value argument")
  unfolding marshalled_decider call_of value_of to_outcome
  typed_decider-nil d made ctx h =
      let (p, q, e) = typed_decider-checked made in
      rw e (
        ap (λ m. m >>= first >>= to_outcome)
          (call-zero data_type implements f ctx h (length-map-eq handler_types f.inputs p)))
