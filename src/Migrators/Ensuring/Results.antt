-- ===== src/Migrators/Ensuring/Results.antt =====
-- What one step does, for a service that keeps a status for each key.
use swf4go.Prelude.{
  String, ◌≡◌, refl, sym, ap, ◌∙◌, ◌⊎◌, inl, inr, Bool, true, false, Option, none, some,
  Option-cases, ◌==◌, if◌then◌else◌, arith, eq_iff,
}
use swf4go.Go.{GoError, response, Result, ok, err, Exec, returns, returns-injective}
use swf4go.Protocol.ErrorResponse.{
  ErrorResponse, status_registered, status_deprecated, error_type_unknown_resource_fault,
}
use swf4go.Migrators.Ensuring.{
  type_asserted, deprecated_in, registered_in, succeeded, ensure_deprecated, ensure_registered,
}

-- A service that is asked for a description by key: it stays as it is, and tells the status that it
-- keeps.
pub record Describes {ℓ} {W K A : Type ℓ} (status : W → K → Option String)
    (describe : K → W → Result A × W) (status_in : A → String) : Type ℓ where
  pub known :
      (k : K) (w : W) (t : String)
      → status w k ≡ some t
      → (a : A) × (describe k w ≡ (ok a, w)) × (status_in a ≡ t)
  pub unknown :
      (k : K) (w : W)
      → status w k ≡ none
      → (r : ErrorResponse) × (describe k w ≡ (err (response r), w))
        × (r.type ≡ error_type_unknown_resource_fault)

-- A step leaves a service alone where the key has the status `t`, and else makes the change.
pub record Ensures {ℓ} {W K D : Type ℓ} (status : W → K → Option String) (step : D → W → Exec W)
    (change : D → W → Option GoError × W) (key : D → K) (t : String) : Type ℓ where
  pub settled : (d : D) (w : W) → status w (key d) ≡ some t → step d w ≡ returns w
  pub changed :
      (d : D) (w w' : W)
      → step d w ≡ returns w'
      → ((status w (key d) ≡ some t) × (w ≡ w')) ⊎ (change d w ≡ (none, w'))

succeeded-eq-returns {ℓ} :
    {W : Type ℓ} (r : Option GoError × W) {w : W} → succeeded r ≡ returns w → r ≡ (none, w)
unfolding succeeded
succeeded-eq-returns (none, w) h = cc
succeeded-eq-returns (some e, w) h = cc

same_text : (s t : String) → (s == t) ≡ true → s ≡ t
same_text s t h = ground (arith, eq_iff s t)

-- a step whose test has been made
chosen {ℓ} :
    {W : Type ℓ} (b : Bool) (r : Option GoError × W) {w w' : W}
    → (if b then returns w else succeeded r) ≡ returns w'
    → ((b ≡ true) × (w ≡ w')) ⊎ (r ≡ (none, w'))
chosen true r h = inl (refl, returns-injective h)
chosen false r h = inr (succeeded-eq-returns r h)

module _ {ℓ} {W K A D : Type ℓ} (status : W → K → Option String) (describe : K → W → Result A × W)
    (status_in : A → String) (describes : Describes status describe status_in)
    (change : D → W → Option GoError × W) (key : D → K) where
  pub ensure_deprecated-Ensures :
      Ensures status
        (λ d w. ensure_deprecated (describe (key d)) status_in (change d) w)
        change
        key
        status_deprecated
  unfolding ensure_deprecated type_asserted deprecated_in
  ensure_deprecated-Ensures = record {
    settled =
        λ d w e. let (a, p, q) = describes.known (key d) w status_deprecated e in rw (p, q) refl;
    changed = λ d w w' h. elim (Option-cases (status w (key d))) [
      | inl missing ↦
          let (r, p, q) = describes.unknown (key d) w missing in
          inr (succeeded-eq-returns _ (rw p at h))
      | inr (t, has) ↦
          let (a, p, q) = describes.known (key d) w t has in
          elim (chosen (status_in a == status_deprecated) (change d w) (rw p at h)) [
            | inl (b, same) ↦
                inl (has ∙ ap some (sym q ∙ same_text (status_in a) status_deprecated b), same)
            | inr made ↦ inr made
          ]
    ];
  }

  pub ensure_registered-Ensures :
      Ensures status
        (λ d w. ensure_registered (describe (key d)) status_in (change d) w)
        change
        key
        status_registered
  unfolding ensure_registered type_asserted registered_in
  ensure_registered-Ensures = record {
    settled =
        λ d w e. let (a, p, q) = describes.known (key d) w status_registered e in rw (p, q) refl;
    changed = λ d w w' h. elim (Option-cases (status w (key d))) [
      | inl missing ↦
          let (r, p, q) = describes.unknown (key d) w missing in
          inr (succeeded-eq-returns _ (rw (p, q) at h))
      | inr (t, has) ↦
          let (a, p, q) = describes.known (key d) w t has in
          elim (chosen (status_in a == status_registered) (change d w) (rw p at h)) [
            | inl (b, same) ↦
                inl (has ∙ ap some (sym q ∙ same_text (status_in a) status_registered b), same)
            | inr made ↦ inr made
          ]
    ];
  }
