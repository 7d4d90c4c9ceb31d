-- ===== src/Migrators/Samples/Statuses.antt =====
-- The newest status of each key, in a list of entries.
use swf4go.Prelude.{
  String, ◌≡◌, ◌≢◌, refl, sym, arith, eq_iff, eq_refl, eq-false, Bool, true, false, ◌&&◌, ◌==◌,
  Bool-cases, inl, inr, Option, none, some, List, [], ◌∷◌,
}

-- by whether the newest entry is the key's
unfoldable pub newest : Bool → String → Option String → Option String
newest true t older = some t
newest false t older = older

pub newest-true : (b : Bool) (t : String) (o : Option String) → b ≡ true → newest b t o ≡ some t
unfolding newest
newest-true true t o e = refl
newest-true false t o e = cc

pub newest-false : (b : Bool) (t : String) (o : Option String) → b ≡ false → newest b t o ≡ o
unfolding newest
newest-false true t o e = cc
newest-false false t o e = refl

module _ {K : Type 0} (same : K → K → Bool) where
  unfoldable pub find_status : List (K × String) → K → Option String
  unfolding newest
  find_status [] k = none
  find_status ((j, t) ∷ rest) k = newest (same j k) t (find_status rest k)

abbrev pub Key : Type 0
Key = String × (String × String)

abbrev pub same_text : String → String → Bool
same_text s t = s == t

abbrev pub same_key : Key → Key → Bool
same_key j k = (j.0 == k.0) && ((j.1.0 == k.1.0) && (j.1.1 == k.1.1))

pub same_key_refl : (k : Key) → same_key k k ≡ true
same_key_refl k = simp eq_refl

same_key-true : (j k : Key) → same_key j k ≡ true → j ≡ k
same_key-true j k h =
    let e₁ : j.0 ≡ k.0 = ground (arith, eq_iff j.0 k.0) in
    let e₂ : j.1.0 ≡ k.1.0 = ground (arith, eq_iff j.1.0 k.1.0) in
    let e₃ : j.1.1 ≡ k.1.1 = ground (arith, eq_iff j.1.1 k.1.1) in λ i. (e₁ i, (e₂ i, e₃ i))

pub same_key_other : (j k : Key) → k ≢ j → same_key j k ≡ false
same_key_other j k ne = elim (Bool-cases (same_key j k)) [
  | inl e ↦ absurd (ne (sym (same_key-true j k e)))
  | inr e ↦ e
]

pub same_text_other : (s t : String) → t ≢ s → (s == t) ≡ false
same_text_other s t ne = eq-false s t (λ e. ne (sym e))
