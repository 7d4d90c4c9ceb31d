-- ===== src/Migrators/Ensuring/Refusals.antt =====
-- How a step ends whose description and change fail with answers of the service (types.go, lines 77 to 121,
-- and the same for types and streams).
use swf4go.Prelude.{
  ◌≡◌, refl, Bool, true, false, Option, none, some, List, [], ◌∷◌, ◌==◌, String, if◌then◌else◌,
}
use swf4go.Go.{
  GoError, response, text, Result, ok, err, Panic, of_error, Exec, returns, panics, ◌>>=◌,
}
use swf4go.Protocol.ErrorResponse.{
  ErrorResponse, error_type_unknown_resource_fault, error_type_stream_not_found,
}
use swf4go.Migrators.Ensuring.{
  Described, found, failed, type_asserted, deprecated_in, registered_in, created_in, succeeded,
  ensure_deprecated, ensure_registered, ensure_created, each,
}

-- An error that is an answer of the service.
abbrev pub IsAnswer : GoError → Type 0
IsAnswer e = (r : ErrorResponse) × (e ≡ response r)

-- A change, or a description, that fails with an answer only.
abbrev pub ChangeAnswers {ℓ} : {W : Type ℓ} → (W → Option GoError × W) → Type ℓ
ChangeAnswers {W = W} f = (w : W) (e : GoError) → (f w).0 ≡ some e → IsAnswer e

abbrev pub DescribeAnswers {ℓ κ} : {A : Type ℓ} {W : Type κ} → (W → Result A × W) → Type (ℓ ⊔ κ)
DescribeAnswers {W = W} f = (w : W) (e : GoError) → (f w).0 ≡ err e → IsAnswer e

-- A computation that panics with an answer only.
abbrev pub PanicsAnswer {ℓ} : {A : Type ℓ} → Exec A → Type ℓ
PanicsAnswer m = (p : Panic) → m ≡ panics p → (r : ErrorResponse) × (p ≡ of_error (response r))

pub returns-PanicsAnswer {ℓ} : {A : Type ℓ} (a : A) → PanicsAnswer (returns a)
returns-PanicsAnswer a p h = cc

pub bind-PanicsAnswer {ℓ κ} :
    {A : Type ℓ} {B : Type κ} (m : Exec A) (f : A → Exec B)
    → PanicsAnswer m
    → ((a : A) → PanicsAnswer (f a))
    → PanicsAnswer (m >>= f)
bind-PanicsAnswer (returns a) f first next p h = next a p h
bind-PanicsAnswer (panics q) f first next p h = first p cc

if-PanicsAnswer {ℓ} :
    {A : Type ℓ} (b : Bool) (m n : Exec A)
    → PanicsAnswer m
    → PanicsAnswer n
    → PanicsAnswer (if b then m else n)
if-PanicsAnswer true m n hm hn = hm
if-PanicsAnswer false m n hm hn = hn

answer-PanicsAnswer {ℓ} :
    {A : Type ℓ} (r : ErrorResponse) → PanicsAnswer {A = A} (panics (of_error (response r)))
answer-PanicsAnswer r p h = (r, cc)

pub each-PanicsAnswer {ℓ κ} :
    {A : Type ℓ} {W : Type κ} (run : A → W → Exec W)
    → ((a : A) (w : W) → PanicsAnswer (run a w))
    → (items : List A) (w : W) → PanicsAnswer (each run items w)
unfolding each
each-PanicsAnswer run ha [] w = returns-PanicsAnswer w
each-PanicsAnswer run ha (a ∷ items) w =
    bind-PanicsAnswer (run a w) _ (ha a w) (λ w'. each-PanicsAnswer run ha items w')

succeeded-PanicsAnswer {ℓ} :
    {W : Type ℓ} (r : Option GoError × W)
    → ((e : GoError) → r.0 ≡ some e → IsAnswer e)
    → PanicsAnswer (succeeded r)
unfolding succeeded
succeeded-PanicsAnswer (none, w) ha p h = cc
succeeded-PanicsAnswer (some e, w) ha p h = let (r, same) = ha e refl in (r, cc)

type_asserted-PanicsAnswer {ℓ κ} :
    {A : Type ℓ} {W : Type κ} (r : Result A × W)
    → ((e : GoError) → r.0 ≡ err e → IsAnswer e)
    → PanicsAnswer (type_asserted r)
unfolding type_asserted
type_asserted-PanicsAnswer (ok a, w) ha p h = cc
type_asserted-PanicsAnswer (err (response r), w) ha p h = cc
type_asserted-PanicsAnswer (err (text t), w) ha p h = let (r, same) = ha (text t) refl in cc

registered_in-PanicsAnswer {ℓ} :
    {A : Type ℓ} (status : A → String) (d : Described A) → PanicsAnswer (registered_in status d)
unfolding registered_in
registered_in-PanicsAnswer status (found a) = returns-PanicsAnswer _
registered_in-PanicsAnswer status (failed r) =
    if-PanicsAnswer (r.type == error_type_unknown_resource_fault) _ _ (returns-PanicsAnswer _)
      (answer-PanicsAnswer r)

created_in-PanicsAnswer {ℓ} : {A : Type ℓ} (d : Described A) → PanicsAnswer (created_in d)
unfolding created_in
created_in-PanicsAnswer (found a) = returns-PanicsAnswer _
created_in-PanicsAnswer (failed r) =
    if-PanicsAnswer (r.type == error_type_stream_not_found) _ _ (returns-PanicsAnswer _)
      (answer-PanicsAnswer r)

module _ {ℓ κ} {A : Type ℓ} {W : Type κ} (describe : W → Result A × W) (status : A → String)
    (change : W → Option GoError × W) (describes : DescribeAnswers describe)
    (changes : ChangeAnswers change) where
  change-PanicsAnswer :
      (b : Bool) (w : W) → PanicsAnswer (if b then returns w else succeeded (change w))
  change-PanicsAnswer b w =
      if-PanicsAnswer b _ _ (returns-PanicsAnswer w) (succeeded-PanicsAnswer (change w) (changes w))

  pub ensure_deprecated-PanicsAnswer :
      (w : W) → PanicsAnswer (ensure_deprecated describe status change w)
  unfolding ensure_deprecated
  ensure_deprecated-PanicsAnswer w =
      bind-PanicsAnswer (type_asserted (describe w)) _
        (type_asserted-PanicsAnswer (describe w) (describes w))
        (λ d. change-PanicsAnswer (deprecated_in status d.0) d.1)

  pub ensure_registered-PanicsAnswer :
      (w : W) → PanicsAnswer (ensure_registered describe status change w)
  unfolding ensure_registered
  ensure_registered-PanicsAnswer w =
      bind-PanicsAnswer (type_asserted (describe w)) _
        (type_asserted-PanicsAnswer (describe w) (describes w))
        (λ d.
          bind-PanicsAnswer (registered_in status d.0) _ (registered_in-PanicsAnswer status d.0)
            (λ b. change-PanicsAnswer b d.1))

  pub ensure_created-PanicsAnswer : (w : W) → PanicsAnswer (ensure_created describe change w)
  unfolding ensure_created
  ensure_created-PanicsAnswer w =
      bind-PanicsAnswer (type_asserted (describe w)) _
        (type_asserted-PanicsAnswer (describe w) (describes w))
        (λ d.
          bind-PanicsAnswer (created_in d.0) _ (created_in-PanicsAnswer d.0)
            (λ b. change-PanicsAnswer b d.1))
