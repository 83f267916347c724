-- ===== src/Common/State.antt =====
-- Code that changes a state and may throw: the state stays as it is when the exception is thrown.
use mathlib.Core.Path.{◌≡◌, ap}
use privmx_endpoint.Common.Outcome.{Result, ok, err, Error}

abbrev pub M {ℓ κ} : Type ℓ → Type κ → Type (ℓ ⊔ κ)
M S A = S → S × Result A

infixl 5 ◌>>=◌ ◌>>◌
abbrev pub ◌>>=◌ {ℓ κ μ} : {S : Type ℓ} {A : Type κ} {B : Type μ} → M S A → (A → M S B) → M S B
◌>>=◌ m f s = let r = m s in elim r.1 [ ok a ↦ f a r.0 | err e ↦ (r.0, err e) ]

abbrev pub ◌>>◌ {ℓ κ} : {S : Type ℓ} {B : Type κ} → M S (Unit {0}) → M S B → M S B
m >> k = m >>= λ _. k

abbrev pub pure {ℓ κ} : {S : Type ℓ} {A : Type κ} → A → M S A
pure a s = (s, ok a)

abbrev pub throw {ℓ κ} : {S : Type ℓ} {A : Type κ} → Error → M S A
throw e s = (s, err e)

abbrev pub get {ℓ} : {S : Type ℓ} → M S S
get s = (s, ok s)

abbrev pub modify {ℓ} : {S : Type ℓ} → (S → S) → M S (Unit {0})
modify f s = (f s, ok tt)

-- A call that leaves the state alone.
abbrev pub lift {ℓ κ} : {S : Type ℓ} {A : Type κ} → Result A → M S A
lift r s = (s, r)

-- A call that succeeds hands its result on.
pub >>=-ok {ℓ κ μ} :
    {S : Type ℓ} {A : Type κ} {B : Type μ} (m : M S A) (f : A → M S B) (s : S) {s' : S} {a : A}
    → m s ≡ (s', ok a)
    → (m >>= f) s ≡ f a s'
>>=-ok {B} m f s e = ap (λ r. elim r.1 [ ok a ↦ f a r.0 | err x ↦ (r.0, err x) ]) e

pub >>-ok {ℓ κ} :
    {S : Type ℓ} {B : Type κ} (m : M S (Unit {0})) (k : M S B) (s : S) {s' : S}
    → m s ≡ (s', ok tt)
    → (m >> k) s ≡ k s'
>>-ok m k s e = >>=-ok m (λ _. k) s e

-- A call that throws ends the body.
pub >>=-err {ℓ κ μ} :
    {S : Type ℓ} {A : Type κ} {B : Type μ} (m : M S A) (f : A → M S B) (s : S) {s' : S} {e : Error}
    → m s ≡ (s', err e)
    → (m >>= f) s ≡ (s', err e)
>>=-err {B} m f s e = ap (λ r. elim r.1 [ ok a ↦ f a r.0 | err x ↦ (r.0, err x) ]) e
