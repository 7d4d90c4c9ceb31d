-- ===== src/Migrators/Ensuring.antt =====
-- The steps that the migrators share: a description is asked for, and a change is made if it calls for
-- one (types.go, lines 77 to 121 for domains, and the same for types and streams).
pub mod Results
pub mod Refusals
use swf4go.Prelude.{
  String, Bool, true, false, Option, none, some, List, [], ◌∷◌, ◌==◌, if◌then◌else◌,
}
use swf4go.Go.{
  GoError, response, text, Result, ok, err, Panic, of_error, Exec, returns, panics, ◌>>=◌,
}
use swf4go.Protocol.ErrorResponse.{
  ErrorResponse, status_registered, status_deprecated, error_type_unknown_resource_fault,
  error_type_stream_not_found,
}

-- The two results of `describe`, one of which is nil.
pub data Described {ℓ} (A : Type ℓ) : Type ℓ where
  found : A → Described A
  failed : ErrorResponse → Described A

-- err.(*ErrorResponse) panics for an error of another type.
type_asserted {ℓ κ} : {A : Type ℓ} {W : Type κ} → Result A × W → Exec (Described A × W)
type_asserted (ok a, w) = returns (found a, w)
type_asserted (err (response r), w) = returns (failed r, w)
type_asserted (err (text t), w) =
    panics (of_error (text "interface conversion: error is not *swf.ErrorResponse"))

module _ {ℓ} {A : Type ℓ} where
  deprecated_in : (A → String) → Described A → Bool
  deprecated_in status (found a) = status a == status_deprecated
  deprecated_in status (failed r) = false

  registered_in : (A → String) → Described A → Exec Bool
  registered_in status (found a) = returns (status a == status_registered)
  registered_in status (failed r) =
      if r.type == error_type_unknown_resource_fault
      then returns false
      else panics (of_error (response r))

  created_in : Described A → Exec Bool
  created_in (found a) = returns true
  created_in (failed r) =
      if r.type == error_type_stream_not_found
      then returns false
      else panics (of_error (response r))

-- if err != nil { panic(err) }
succeeded {ℓ} : {W : Type ℓ} → Option GoError × W → Exec W
succeeded (none, w) = returns w
succeeded (some e, w) = panics (of_error e)

module _ {ℓ κ} {A : Type ℓ} {W : Type κ} where
  unfoldable pub ensure_deprecated :
      (W → Result A × W) → (A → String) → (W → Option GoError × W) → W → Exec W
  unfolding type_asserted deprecated_in succeeded
  ensure_deprecated describe status deprecate w = do
    (d, w') ← type_asserted (describe w)
    if deprecated_in status d then returns w' else succeeded (deprecate w')

  unfoldable pub ensure_registered :
      (W → Result A × W) → (A → String) → (W → Option GoError × W) → W → Exec W
  unfolding type_asserted registered_in succeeded
  ensure_registered describe status register w = do
    (d, w') ← type_asserted (describe w)
    registered ← registered_in status d
    if registered then returns w' else succeeded (register w')

  unfoldable pub ensure_created : (W → Result A × W) → (W → Option GoError × W) → W → Exec W
  unfolding type_asserted created_in succeeded
  ensure_created describe create w = do
    (d, w') ← type_asserted (describe w)
    created ← created_in d
    if created then returns w' else succeeded (create w')

-- A loop over a slice that changes the service.
unfoldable pub each {ℓ κ} : {A : Type ℓ} {W : Type κ} → (A → W → Exec W) → List A → W → Exec W
each run [] w = returns w
each run (a ∷ rest) w = do w' ← run a w; each run rest w'
