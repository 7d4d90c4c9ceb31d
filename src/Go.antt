-- ===== src/Go.antt =====
-- What the program uses of Go: errors as values, and panics. `Result` is a pair of a value and an
-- error of which one counts; `Exec` is a computation that returns or panics.
use swf4go.Prelude.{String, ◌≡◌, refl, ap, ◌∙◌, Option, none, some, ◌⊎◌, inl, inr}
use swf4go.Protocol.ErrorResponse.{ErrorResponse}

-- The `error` values that the program tells apart: a service's response, and any other.
pub data GoError : Type 0 where
  response : ErrorResponse → GoError
  text : String → GoError

-- errors.New
abbrev pub errors_new : String → GoError
errors_new = text

pub data Result {ℓ} (A : Type ℓ) : Type ℓ where
  ok : A → Result A
  err : GoError → Result A

-- What a package outside the program returns. Its errors are none of the program's own.
pub data Attempt {ℓ} (A : Type ℓ) : Type ℓ where
  done : A → Attempt A
  failed : String → Attempt A

-- An error of a package, as the program passes it on.
abbrev pub returned {ℓ} : {A : Type ℓ} → Attempt A → Result A
returned (done a) = ok a
returned (failed t) = err (text t)

-- The argument of `panic`: an error, or a value that is none. The run-time's own panics are errors.
pub data Panic : Type 0 where
  of_error : GoError → Panic
  of_value : String → Panic

abbrev pub nil_dereference : Panic
nil_dereference = of_error (text "invalid memory address or nil pointer dereference")

abbrev pub index_out_of_range : Panic
index_out_of_range = of_error (text "index out of range")

pub data Exec {ℓ} (A : Type ℓ) : Type ℓ where
  returns : A → Exec A
  panics : Panic → Exec A

infixl 5 ◌>>=◌ ◌>>◌
abbrev pub ◌>>=◌ {ℓ κ} : {A : Type ℓ} {B : Type κ} → Exec A → (A → Exec B) → Exec B
returns a >>= f = f a
panics p >>= f = panics p

abbrev pub ◌>>◌ {ℓ κ} : {A : Type ℓ} {B : Type κ} → Exec A → Exec B → Exec B
m >> k = m >>= λ _. k

-- *p, for a pointer that may be nil
abbrev pub deref {ℓ} : {A : Type ℓ} → Option A → Exec A
deref none = panics nil_dereference
deref (some a) = returns a

-- if err != nil { panic(err) }
abbrev pub must {ℓ} : {A : Type ℓ} → Result A → Exec A
must (ok a) = returns a
must (err e) = panics (of_error e)

pub bind-eq-returns {ℓ κ} :
    {A : Type ℓ} {B : Type κ} (m : Exec A) (f : A → Exec B) {b : B}
    → (m >>= f) ≡ returns b
    → (a : A) × (m ≡ returns a) × (f a ≡ returns b)
bind-eq-returns (returns a) f h = (a, refl, h)
bind-eq-returns (panics p) f h = cc

pub returns-injective {ℓ} : {A : Type ℓ} {a b : A} → returns a ≡ returns b → a ≡ b
returns-injective h = cc

-- The pointer that was followed.
pub deref-eq-returns {ℓ} : {A : Type ℓ} (o : Option A) {a : A} → deref o ≡ returns a → o ≡ some a
deref-eq-returns none h = cc
deref-eq-returns (some a) h = cc

pub ok-injective {ℓ} : {A : Type ℓ} {a b : A} → ok a ≡ ok b → a ≡ b
ok-injective h = cc

pub Attempt-cases {ℓ} :
    {A : Type ℓ} (a : Attempt A) → ((x : A) × (a ≡ done x)) ⊎ ((t : String) × (a ≡ failed t))
Attempt-cases (done x) = inl (x, refl)
Attempt-cases (failed t) = inr (t, refl)

-- A computation that does not panic.
abbrev pub Returns {ℓ} : {A : Type ℓ} → Exec A → Type ℓ
Returns {A = A} m = (a : A) × (m ≡ returns a)

pub bind-Returns {ℓ κ} :
    {A : Type ℓ} {B : Type κ} (m : Exec A) (f : A → Exec B)
    → Returns m
    → ((a : A) → m ≡ returns a → Returns (f a))
    → Returns (m >>= f)
bind-Returns {A = A} m f (a, e) next =
    let (b, e') = next a e in (b, ap (λ (x : Exec A). x >>= f) e ∙ e')
