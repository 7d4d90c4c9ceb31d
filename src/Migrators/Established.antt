-- ===== src/Migrators/Established.antt =====
-- What a migration that returns has established (types.go, lines 57 to 75, and the same for types).
pub mod Domains
pub mod WorkflowTypes
pub mod ActivityTypes
use swf4go.Prelude.{
  String, ◌≡◌, ◌≢◌, refl, sym, ap, subst, ◌∙◌, ◌⊎◌, inl, inr, Option, none, some, List, [], ◌∷◌,
  ◌==◌, Bool-cases, All, arith, eq_iff,
}
use swf4go.Go.{GoError, Result, Exec, returns, ◌>>=◌, bind-eq-returns, returns-injective}
use swf4go.Protocol.ErrorResponse.{status_registered, status_deprecated}
use swf4go.Migrators.Ensuring.{each}
use swf4go.Migrators.Ensuring.Results.{Ensures}

pub decide_text : (s t : String) → (s ≡ t) ⊎ (s ≢ t)
decide_text s t = elim (Bool-cases (s == t)) [
  | inl same ↦ inl (ground (arith, eq_iff s t))
  | inr other ↦ inr (λ e. ground (arith, eq_iff s t))
]

pub decide_pair {ℓ} :
    {A B : Type ℓ}
    → ((a b : A) → (a ≡ b) ⊎ (a ≢ b))
    → ((a b : B) → (a ≡ b) ⊎ (a ≢ b))
    → (p q : A × B) → (p ≡ q) ⊎ (p ≢ q)
decide_pair first second (a, b) (c, d) = elim (first a c) [
  | inl same ↦ elim (second b d) [
    | inl also ↦ inl (λ i. (same i, also i))
    | inr other ↦ inr (λ e. other (ap (λ x. x.1) e))
  ]
  | inr other ↦ inr (λ e. other (ap (λ x. x.0) e))
]

-- A change that is accepted sets the status of its key, and of no other.
pub record Sets {ℓ} {W K D : Type ℓ} (status : W → K → Option String)
    (change : D → W → Option GoError × W) (key : D → K) (t : String) : Type ℓ where
  pub here : (d : D) (w w' : W) → change d w ≡ (none, w') → status w' (key d) ≡ some t
  pub elsewhere :
      (d : D) (w w' : W) (k : K) → change d w ≡ (none, w') → k ≢ key d → status w' k ≡ status w k

-- Every key of the list has the status.
abbrev pub AllAt {ℓ} :
    {W K D : Type ℓ} → (W → K → Option String) → (D → K) → String → W → List D → Type 0
AllAt status key t w = All (λ d. status w (key d) ≡ some t)

module _ {ℓ} {W K D : Type ℓ} (status : W → K → Option String) (step : D → W → Exec W)
    (change : D → W → Option GoError × W) (key : D → K) (t : String)
    (ensures : Ensures status step change key t) (sets : Sets status change key t)
    (decide : (j k : K) → (j ≡ k) ⊎ (j ≢ k)) where
  step-status : (d : D) (w w' : W) → step d w ≡ returns w' → status w' (key d) ≡ some t
  step-status d w w' h = elim (ensures.changed d w w' h) [
    | inl (e, same) ↦ subst (λ (x : W). status x (key d) ≡ some t) same e
    | inr made ↦ sets.here d w w' made
  ]

  step_elsewhere :
      (d : D) (w w' : W) (k : K) → step d w ≡ returns w' → k ≢ key d → status w' k ≡ status w k
  step_elsewhere d w w' k h other = elim (ensures.changed d w w' h) [
    | inl (e, same) ↦ ap (λ (x : W). status x k) (sym same)
    | inr made ↦ sets.elsewhere d w w' k made other
  ]

  step_keeps :
      (d : D) (w w' : W) (k : K)
      → step d w ≡ returns w'
      → status w k ≡ some t
      → status w' k ≡ some t
  step_keeps d w w' k h e = elim (decide k (key d)) [
    | inl same ↦ ap (status w') same ∙ step-status d w w' h
    | inr other ↦ step_elsewhere d w w' k h other ∙ e
  ]

  each_keeps :
      (ds : List D) (w w' : W) (k : K)
      → each step ds w ≡ returns w'
      → status w k ≡ some t
      → status w' k ≡ some t
  unfolding each
  each_keeps [] w w' k h e = ap (λ (x : W). status x k) (sym (returns-injective h)) ∙ e
  each_keeps (d ∷ ds) w w' k h e =
      let (v, first, rest) = bind-eq-returns (step d w) (each step ds) h in
      each_keeps ds v w' k rest (step_keeps d w v k first e)

  pub each_elsewhere :
      (ds : List D) (w w' : W) (k : K)
      → each step ds w ≡ returns w'
      → All (λ (d : D). k ≢ key d) ds
      → status w' k ≡ status w k
  unfolding each
  each_elsewhere [] w w' k h others = ap (λ (x : W). status x k) (sym (returns-injective h))
  each_elsewhere (d ∷ ds) w w' k h others =
      let (v, first, rest) = bind-eq-returns (step d w) (each step ds) h in
      each_elsewhere ds v w' k rest others.1 ∙ step_elsewhere d w v k first others.0

  -- The loop sets every key.
  pub each-AllAt : (ds : List D) (w w' : W) → each step ds w ≡ returns w' → AllAt status key t w' ds
  unfolding each
  each-AllAt [] w w' h = tt
  each-AllAt (d ∷ ds) w w' h =
      let (v, first, rest) = bind-eq-returns (step d w) (each step ds) h in
      (each_keeps ds v w' (key d) rest (step-status d w v first), each-AllAt ds v w' rest)

  -- Where every key is set, the loop does nothing.
  pub each_settled : (ds : List D) (w : W) → AllAt status key t w ds → each step ds w ≡ returns w
  unfolding each
  each_settled [] w all = refl
  each_settled (d ∷ ds) w all =
      ap (λ (m : Exec W). m >>= each step ds) (ensures.settled d w all.0) ∙ each_settled ds w all.1

-- No key is both to be deprecated and to be registered.
abbrev pub Disjoint {ℓ} : {K D R : Type ℓ} → (D → K) → (R → K) → List D → List R → Type ℓ
Disjoint {R = R} key key_of ds rs = All (λ d. All (λ (r : R). key d ≢ key_of r) rs) ds

-- The two loops of a migrator, over keys that are not both deprecated and registered.
module _ {ℓ} {W K D R : Type ℓ} (status : W → K → Option String)
    (decide : (j k : K) → (j ≡ k) ⊎ (j ≢ k)) (deprecate_step : D → W → Exec W)
    (deprecate : D → W → Option GoError × W) (key : D → K)
    (deprecates : Ensures status deprecate_step deprecate key status_deprecated)
    (sets_deprecated : Sets status deprecate key status_deprecated) (register_step : R → W → Exec W)
    (register : R → W → Option GoError × W) (key_of : R → K)
    (registers : Ensures status register_step register key_of status_registered)
    (sets_registered : Sets status register key_of status_registered) where
  abbrev both : List D → List R → W → Exec W
  both ds rs w = each deprecate_step ds w >>= each register_step rs

  still_deprecated :
      (ds : List D) (rs : List R) (v w : W)
      → Disjoint key key_of ds rs
      → each register_step rs v ≡ returns w
      → AllAt status key status_deprecated v ds
      → AllAt status key status_deprecated w ds
  still_deprecated [] rs v w apart h all = tt
  still_deprecated (d ∷ ds) rs v w apart h all = (
    each_elsewhere status register_step register key_of status_registered registers sets_registered
          decide rs v w (key d) h apart.0
        ∙ all.0,
    still_deprecated ds rs v w apart.1 h all.1,
  )

  pub both-AllAt :
      (ds : List D) (rs : List R) (w w' : W)
      → Disjoint key key_of ds rs
      → both ds rs w ≡ returns w'
      → AllAt status key status_deprecated w' ds
        × AllAt status key_of status_registered w' rs
        × (both ds rs w' ≡ returns w')
  both-AllAt ds rs w w' apart h =
      let (v, first, rest) = bind-eq-returns (each deprecate_step ds w) (each register_step rs) h in
      let old = still_deprecated ds rs v w' apart rest (
        each-AllAt status deprecate_step deprecate key status_deprecated deprecates sets_deprecated
          decide ds w v first) in
      let new =
        each-AllAt status register_step register key_of status_registered registers sets_registered
          decide rs v w' rest in
      (
        old,
        new,
        ap (λ (m : Exec W). m >>= each register_step rs)
              (each_settled status deprecate_step deprecate key status_deprecated deprecates
                sets_deprecated decide ds w' old)
            ∙ each_settled status register_step register key_of status_registered registers
                sets_registered decide rs w' new,
      )
