-- ===== src/Core/KeyProvider/Weakening.antt =====
-- A check leaves a key as it is, or sets its failure.
use privmx_endpoint.Common.{
  Bool-cases, Error, Bytes, bytes_eq, ◌≡◌, refl, ap, ◌∙◌, ◌⊎◌, inl, inr, true, false, some, [], ◌∷◌,
  arith,
}
use mathlib.Core.Path.{subst}
use privmx_endpoint.Utils.Key.{bytes_key}
use privmx_endpoint.Utils.ThreadSaveMap.{Map, get}
use privmx_endpoint.Core.KeyProvider.{DecryptedEncKey, has_failed}
use privmx_endpoint.Core.KeyProvider.Checks.{set_status}

-- A key as it was, or with another status that is a failure.
abbrev pub Weaker : DecryptedEncKey → DecryptedEncKey → Type 0
Weaker a' a = (a' ≡ a) ⊎ ((e : Error) × (a' ≡ record a { status_code = some e }))

pub Weaker-trans : (a b c : DecryptedEncKey) → Weaker a b → Weaker b c → Weaker a c
Weaker-trans a b c (inl e) (inl f) = inl (e ∙ f)
Weaker-trans a b c (inl e) (inr (x, f)) = inr (x, e ∙ f)
Weaker-trans a b c (inr (x, e)) (inl f) =
    inr (x, e ∙ ap (λ (k : DecryptedEncKey). record k { status_code = some x }) f)
Weaker-trans a b c (inr (x, e)) (inr (y, f)) =
    inr (x, e ∙ ap (λ (k : DecryptedEncKey). record k { status_code = some x }) f)

pub Weaker-has_failed :
    (a b : DecryptedEncKey) → Weaker a b → has_failed b ≡ true → has_failed a ≡ true
Weaker-has_failed a b (inl e) h = ap (λ (k : DecryptedEncKey). has_failed k) e ∙ h
Weaker-has_failed a b (inr (x, e)) h = ap (λ (k : DecryptedEncKey). has_failed k) e

-- A key that has not failed is as it was.
pub Weaker-eq : (a b : DecryptedEncKey) → Weaker a b → has_failed a ≡ false → a ≡ b
Weaker-eq a b (inl e) h = e
Weaker-eq a b (inr (x, e)) h = cc (ap (λ (k : DecryptedEncKey). has_failed k) e)

-- Every key of the first map is a key of the second, perhaps weaker.
abbrev pub IsWeaker : Map Bytes DecryptedEncKey → Map Bytes DecryptedEncKey → Type 0
IsWeaker m' m =
    (j : Bytes) (a' : DecryptedEncKey)
    → get j m' ≡ some a'
    → (a : DecryptedEncKey) × (get j m ≡ some a) × Weaker a' a

abbrev pub Fails : Map Bytes DecryptedEncKey → Bytes → Type 0
Fails m j = (a : DecryptedEncKey) → get j m ≡ some a → has_failed a ≡ true

pub IsWeaker-refl : (m : Map Bytes DecryptedEncKey) → IsWeaker m m
IsWeaker-refl m j a' h = (a', h, inl refl)

pub IsWeaker-trans :
    (a b c : Map Bytes DecryptedEncKey) → IsWeaker a b → IsWeaker b c → IsWeaker a c
IsWeaker-trans a b c f g j x h =
    let (y, h', w) = f j x h in let (z, h'', w') = g j y h' in (z, h'', Weaker-trans x y z w w')

pub IsWeaker-Fails :
    (m' m : Map Bytes DecryptedEncKey) (j : Bytes) → IsWeaker m' m → Fails m j → Fails m' j
IsWeaker-Fails m' m j w f a' h = let (a, h', w') = w j a' h in Weaker-has_failed a' a w' (f a h')

-- The same key at the front of both, perhaps weaker.
pub IsWeaker-cons :
    (x : Bytes) (k' k : DecryptedEncKey) (m' m : Map Bytes DecryptedEncKey)
    → Weaker k' k
    → IsWeaker m' m
    → IsWeaker ((x, k') ∷ m') ((x, k) ∷ m)
unfolding get
IsWeaker-cons x k' k m' m w rest j a' h = elim (Bool-cases (bytes_eq j x)) [
  | inl here ↦ (k, rw here refl, subst (λ b. Weaker b k) (cc (rw here at h)) w)
  | inr past ↦ let (a, found, w') = rest j a' (rw past at h) in (a, rw past found, w')
]

pub set_status-IsWeaker :
    (i : Bytes) (e : Error) (m : Map Bytes DecryptedEncKey) → IsWeaker (set_status i e m) m
unfolding set_status
set_status-IsWeaker i e [] = IsWeaker-refl []
set_status-IsWeaker i e ((x, k) ∷ m) = elim (Bool-cases (bytes_eq i x)) [
  | inl here ↦
      rw here (
        IsWeaker-cons x (record k { status_code = some e }) k m m (inr (e, refl)) (IsWeaker-refl m))
  | inr past ↦
      rw past (IsWeaker-cons x k k (set_status i e m) m (inl refl) (set_status-IsWeaker i e m))
]

pub set_status-Fails :
    (i : Bytes) (e : Error) (m : Map Bytes DecryptedEncKey) → Fails (set_status i e m) i
unfolding set_status get
set_status-Fails i e [] a h = ground (arith, h)
set_status-Fails i e ((x, k) ∷ m) a h = ground (arith, h, set_status-Fails i e m a)
