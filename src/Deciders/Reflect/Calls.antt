-- ===== src/Deciders/Reflect/Calls.antt =====
-- When a call by reflection goes through (deciders.go, lines 134 to 158).
use swf4go.Prelude.{
  Bool, true, false, ◌≡◌, refl, some, List, [], ◌∷◌, eqb, length, arith, eq_refl, Bool-cases, inl,
  inr,
}
use swf4go.Go.{panics, of_value}
use swf4go.Protocol.HistoryEvent.{HistoryEvent}
use swf4go.Fsm.Context.{FsmContext}
use swf4go.Deciders.Reflect.{
  GoType, named, pointer, slice, basic, other, same_type, Value, zero_value, context, event, datum,
  outcome, decision, decisions, truth, Function, type_of, all_valid, assignable, all_assignable,
  enough, call,
}

same_type_refl : (t : GoType) → same_type t t ≡ true
unfolding same_type
same_type_refl (named p q n) = simp (eq_refl p, eq_refl q, eq_refl n)
same_type_refl (pointer t) = same_type_refl t
same_type_refl (slice t) = same_type_refl t
same_type_refl (basic n) = eq_refl n
same_type_refl (other n) = eq_refl n

module _ {ℓ} {V : Type ℓ} (data_type : V → GoType) (implements : GoType → GoType → Bool) where
  -- Arguments of exactly the types of the inputs.
  abbrev pub Fits : List (Value V) → List GoType → Type 0
  Fits [] [] = Unit {0}
  Fits (v ∷ vs) (t ∷ ts) = (type_of data_type implements v ≡ some t) × Fits vs ts
  Fits vs ts = ⊥

  Fits-length : (vs : List (Value V)) (ts : List GoType) → Fits vs ts → length vs ≡ length ts
  Fits-length [] [] f = refl
  Fits-length [] (t ∷ ts) f = absurd f
  Fits-length (v ∷ vs) [] f = absurd f
  Fits-length (v ∷ vs) (t ∷ ts) (e, f) = let q = Fits-length vs ts f in omega (arith, q)

  Fits-all_valid :
      (vs : List (Value V)) (ts : List GoType)
      → Fits vs ts
      → all_valid data_type implements vs ≡ true
  unfolding all_valid type_of
  Fits-all_valid [] ts f = refl
  Fits-all_valid (v ∷ vs) [] f = absurd f
  Fits-all_valid (zero_value ∷ vs) (t ∷ ts) (e, f) = cc
  Fits-all_valid (context c ∷ vs) (t ∷ ts) (e, f) = Fits-all_valid vs ts f
  Fits-all_valid (event h ∷ vs) (t ∷ ts) (e, f) = Fits-all_valid vs ts f
  Fits-all_valid (datum v ∷ vs) (t ∷ ts) (e, f) = Fits-all_valid vs ts f
  Fits-all_valid (outcome o ∷ vs) (t ∷ ts) (e, f) = Fits-all_valid vs ts f
  Fits-all_valid (decision d ∷ vs) (t ∷ ts) (e, f) = Fits-all_valid vs ts f
  Fits-all_valid (decisions ds ∷ vs) (t ∷ ts) (e, f) = Fits-all_valid vs ts f
  Fits-all_valid (truth b ∷ vs) (t ∷ ts) (e, f) = Fits-all_valid vs ts f

  Fits-assignable :
      (v : Value V) (t : GoType)
      → type_of data_type implements v ≡ some t
      → assignable data_type implements v t ≡ true
  unfolding assignable
  Fits-assignable v t e = rw (assignable, e, same_type_refl t) refl

  Fits-all_assignable :
      (vs : List (Value V)) (ts : List GoType)
      → Fits vs ts
      → all_assignable data_type implements false vs ts ≡ true
  unfolding all_assignable
  Fits-all_assignable [] ts f = refl
  Fits-all_assignable (v ∷ vs) [] f = absurd f
  Fits-all_assignable (v ∷ vs) (t ∷ ts) (e, f) =
      simp (Fits-assignable v t e, Fits-all_assignable vs ts f)

  -- A function that is not variadic runs on arguments of its inputs' types.
  pub call-run :
      (f : Function V) (vs : List (Value V))
      → f.variadic ≡ false
      → Fits vs f.inputs
      → call data_type implements f vs ≡ f.run vs
  unfolding call enough
  call-run f vs plain fits =
      let e : eqb (length vs) (length f.inputs) ≡ true =
        ground (arith, Fits-length vs f.inputs fits) in
      simp (plain, e, Fits-all_valid vs f.inputs fits, Fits-all_assignable vs f.inputs fits)

  -- A nil interface among the arguments is refused.
  pub call-zero :
      (f : Function V) (c : FsmContext V) (h : HistoryEvent)
      → 3 ≡ length f.inputs
      → call data_type implements f (context c ∷ event h ∷ zero_value ∷ [])
        ≡ panics (of_value "reflect: Call using zero Value argument")
  unfolding call enough all_valid
  call-zero f c h three = elim (Bool-cases f.variadic) [
    | inl variadic ↦ rw (variadic, ← three) refl
    | inr plain ↦ rw (plain, ← three) refl
  ]
