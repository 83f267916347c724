-- ===== src/Utils/ThreadSaveMap/Laws.antt =====
-- What a lookup finds after each operation.
use privmx_endpoint.Common.{
  if◌then◌else◌, Bool-cases, ◌≡◌, refl, sym, ap, inl, inr, true, false, none, some, [], ◌∷◌,
}
use privmx_endpoint.Utils.Key.{Key}
use privmx_endpoint.Utils.ThreadSaveMap.{Map, get, has, set, erase}

module _ {K V : Type 0} ⦃k : Key K⦄ where
  pub get-set_same : (key : K) (v : V) (m : Map K V) → get key (set key v m) ≡ some v
  unfolding get set
  get-set_same key v [] = rw (k.same-refl key) refl
  get-set_same key v (p ∷ m) = elim (Bool-cases (k.same key p.0)) [
    | inl t ↦ rw (t, k.same-refl key) refl
    | inr f ↦ rw (f, f) (get-set_same key v m)
  ]

  pub get-set_other :
      (key other : K) (v : V) (m : Map K V)
      → k.same other key ≡ false
      → get other (set key v m) ≡ get other m
  unfolding get set
  get-set_other key other v [] h = rw h refl
  get-set_other key other v (p ∷ m) h = elim (Bool-cases (k.same key p.0)) [
    | inl t ↦ rw (t, h, sym (ap (λ x. k.same other x) (k.same→eq key p.0 t)), h) refl
    | inr f ↦
        rw f (ap (λ r. if k.same other p.0 then some p.1 else r) (get-set_other key other v m h))
  ]

  pub get-erase_same : (key : K) (m : Map K V) → get key (erase key m) ≡ none
  unfolding get erase
  get-erase_same key [] = refl
  get-erase_same key (p ∷ m) = elim (Bool-cases (k.same key p.0)) [
    | inl t ↦ rw t (get-erase_same key m)
    | inr f ↦ rw (f, f) (get-erase_same key m)
  ]

  pub get-erase_other :
      (key other : K) (m : Map K V)
      → k.same other key ≡ false
      → get other (erase key m) ≡ get other m
  unfolding get erase
  get-erase_other key other [] h = refl
  get-erase_other key other (p ∷ m) h = elim (Bool-cases (k.same key p.0)) [
    | inl t ↦
        rw (t, sym (ap (λ x. k.same other x) (k.same→eq key p.0 t)), h)
          (get-erase_other key other m h)
    | inr f ↦
        rw f (ap (λ r. if k.same other p.0 then some p.1 else r) (get-erase_other key other m h))
  ]

  pub has-get :
      (key : K) (m : Map K V) → has key m ≡ elim (get key m) [ none ↦ false | some v ↦ true ]
  unfolding get has
  has-get key [] = refl
  has-get key (p ∷ m) = elim (Bool-cases (k.same key p.0)) [
    | inl t ↦ rw t refl
    | inr f ↦ rw f (has-get key m)
  ]
