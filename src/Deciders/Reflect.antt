-- ===== src/Deciders/Reflect.antt =====
-- The types and values of Go's `reflect` that typed deciders use (deciders.go, lines 97 to 158).
pub mod Calls
use swf4go.Prelude.{
  ℕ, zero, suc, ◌+◌, ◌-◌, String, Bool, true, false, ◌&&◌, ◌||◌, ◌≡◌, refl, Option, none, some,
  List, [], ◌∷◌, ◌==◌, eqb, ltb, length, if◌then◌else◌, eq_refl,
}
use Prim.Native.String.{◌++◌}
use swf4go.Go.{
  GoError, text, Exec, returns, panics, Panic, of_error, of_value, ◌>>=◌, ◌>>◌, index_out_of_range,
}
use swf4go.Protocol.Decision.{Decision}
use swf4go.Protocol.HistoryEvent.{HistoryEvent}
use swf4go.Fsm.Outcome.{Outcome}
use swf4go.Fsm.Context.{FsmContext}

-- A type of a package has its path, the package's name, and its own; `other` are the types without a name that
-- are neither pointers nor slices.
pub data GoType : Type 0 where
  named : String → String → String → GoType
  pointer : GoType → GoType
  slice : GoType → GoType
  basic : String → GoType
  other : String → GoType

-- reflect.Type.String, which leaves out the path
unfoldable pub type_string : GoType → String
type_string (named path pkg name) = pkg ++ "." ++ name
type_string (pointer t) = "*" ++ type_string t
type_string (slice t) = "[]" ++ type_string t
type_string (basic name) = name
type_string (other name) = name

-- whether two types are identical
unfoldable pub same_type : GoType → GoType → Bool
same_type (named p q n) (named p' q' n') = (p == p') && (q == q') && (n == n')
same_type (pointer t) (pointer t') = same_type t t'
same_type (slice t) (slice t') = same_type t t'
same_type (basic n) (basic n') = n == n'
same_type (other n) (other n') = n == n'
same_type t t' = false

abbrev pub swf_type : String → GoType
swf_type name = named "github.com/sclasen/swf4go" "swf" name

-- A reflect.Value: of the arguments that a decider gets, or of what it returns. `zero_value` is that of a nil
-- `interface{}`, and has no type.
pub data Value {ℓ} (V : Type ℓ) : Type ℓ where
  zero_value : Value V
  context : FsmContext V → Value V
  event : HistoryEvent → Value V
  datum : V → Value V
  outcome : Option (Outcome V) → Value V
  decision : Decision → Value V
  decisions : List Decision → Value V
  truth : Bool → Value V

-- A function, by its type and what it does.
pub record Function {ℓ} (V : Type ℓ) : Type ℓ where
  pub inputs : List GoType
  pub outputs : List GoType
  pub variadic : Bool
  pub run : List (Value V) → Exec (List (Value V))

-- The `interface{}` that is given for a function: a function, a value of another kind, or nil.
pub data Candidate {ℓ} (V : Type ℓ) : Type ℓ where
  function : Function V → Candidate V
  value_of_kind : String → Candidate V
  nil : Candidate V

-- The dynamic type of the user's data, and which types have the methods of which interfaces, are parameters.
module _ {ℓ} {V : Type ℓ} (data_type : V → GoType) (implements : GoType → GoType → Bool) where
  unfoldable pub type_of : Value V → Option GoType
  type_of zero_value = none
  type_of (context c) = some (pointer (swf_type "FSMContext"))
  type_of (event h) = some (swf_type "HistoryEvent")
  type_of (datum v) = some (data_type v)
  type_of (outcome o) = some (swf_type "Outcome")
  type_of (decision d) = some (swf_type "Decision")
  type_of (decisions ds) = some (slice (swf_type "Decision"))
  type_of (truth b) = some (basic "bool")

  -- reflect.ValueOf of the data
  unfoldable pub value_of : Option V → Value V
  value_of none = zero_value
  value_of (some v) = datum v

  all_valid : List (Value V) → Bool
  all_valid [] = true
  all_valid (zero_value ∷ rest) = false
  all_valid (v ∷ rest) = all_valid rest

  assignable : Value V → GoType → Bool
  unfolding type_of same_type
  assignable v target = elim (type_of v) [
    | some t ↦ same_type t target || implements t target
    | none ↦ false
  ]

  -- The element type of a variadic function's last input takes every argument from there on.
  all_assignable : Bool → List (Value V) → List GoType → Bool
  unfolding assignable
  all_assignable variadic [] inputs = true
  all_assignable variadic (v ∷ rest) [] = false
  all_assignable true (v ∷ rest) (slice t ∷ []) =
      assignable v t && all_assignable true rest (slice t ∷ [])
  all_assignable variadic (v ∷ rest) (t ∷ inputs) =
      assignable v t && all_assignable variadic rest inputs

  enough : Function V → ℕ → Bool
  enough f n = if f.variadic then ltb (length f.inputs) (n + 2) else eqb n (length f.inputs)

  -- reflect.Value.Call
  unfoldable pub call : Function V → List (Value V) → Exec (List (Value V))
  unfolding all_valid all_assignable enough
  call f args =
      if enough f (length args)
      then (if all_valid args
          then (if all_assignable f.variadic args f.inputs
              then f.run args
              else panics (of_value "reflect: Call using a value as a type that it has not"))
          else panics (of_value "reflect: Call using zero Value argument"))
      else panics (of_value "reflect: Call with the wrong number of input arguments")
