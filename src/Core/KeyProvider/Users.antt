-- ===== src/Core/KeyProvider/Users.antt =====
-- The users that have made the keys are verified, over all containers of a request.
use privmx_endpoint.Common.{
  if◌then◌else◌, Bool-cases, Error, Bytes, bytes_eq, bytes_eq_refl, bytes_eq→eq, ◌≡◌, refl, sym, ap,
  ◌∙◌, ◌⊎◌, inl, inr, Bool, true, false, some, List, [], ◌∷◌, ◌++◌, map, arith, &&_true,
  user_verification_failure,
}
use mathlib.Core.Path.{subst}
use privmx_endpoint.Utils.Key.{Key, bytes_key}
use privmx_endpoint.Utils.ThreadSaveMap.{Map, get}
use privmx_endpoint.Core.KeyProvider.{
  DecryptedEncKey, EncKeyLocation, VerificationRequest, location_eq,
}
use privmx_endpoint.Core.KeyProvider.Checks.{
  needs_verifier, request_of, set_status_at, requests, requests_at, apply_answers,
}
use privmx_endpoint.Core.KeyProvider.Weakening.{
  IsWeaker, IsWeaker-refl, IsWeaker-trans, Fails, IsWeaker-Fails, set_status-IsWeaker,
  set_status-Fails,
}

pub location_eq→eq : (a b : EncKeyLocation) → location_eq a b ≡ true → a ≡ b
location_eq→eq a b h = ground (
  arith,
  &&_true (bytes_eq a.context_id b.context_id) (bytes_eq a.resource_id b.resource_id) h,
  bytes_eq→eq a.context_id b.context_id,
  bytes_eq→eq a.resource_id b.resource_id,
)

pub location_eq_refl : (a : EncKeyLocation) → location_eq a a ≡ true
location_eq_refl a = rw (bytes_eq_refl a.context_id, bytes_eq_refl a.resource_id) refl

instance abbrev pub location_key : Key EncKeyLocation
location_key = record { same = location_eq; same→eq = location_eq→eq; same-refl = location_eq_refl }

abbrev pub Keys : Type 0
Keys = Map EncKeyLocation (Map Bytes DecryptedEncKey)

-- The keys of every container of the first map are those of the second, perhaps weaker.
abbrev pub IsWeakerAt : Keys → Keys → Type 0
IsWeakerAt m' m =
    (l : EncKeyLocation) (ks' : Map Bytes DecryptedEncKey)
    → get l m' ≡ some ks'
    → (ks : Map Bytes DecryptedEncKey) × (get l m ≡ some ks) × IsWeaker ks' ks

abbrev pub FailsAt : Keys → EncKeyLocation → Bytes → Type 0
FailsAt m l i = (ks : Map Bytes DecryptedEncKey) → get l m ≡ some ks → Fails ks i

IsWeakerAt-refl : (m : Keys) → IsWeakerAt m m
IsWeakerAt-refl m l ks h = (ks, h, IsWeaker-refl ks)

IsWeakerAt-trans : (a b c : Keys) → IsWeakerAt a b → IsWeakerAt b c → IsWeakerAt a c
IsWeakerAt-trans a b c f g l x h =
    let (y, h', w) = f l x h in let (z, h'', w') = g l y h' in (z, h'', IsWeaker-trans x y z w w')

IsWeakerAt-FailsAt :
    (m' m : Keys) (l : EncKeyLocation) (i : Bytes)
    → IsWeakerAt m' m
    → FailsAt m l i
    → FailsAt m' l i
IsWeakerAt-FailsAt m' m l i w f ks' h =
    let (ks, h', w') = w l ks' h in IsWeaker-Fails ks' ks i w' (f ks h')

set_status_at-IsWeakerAt :
    (l : EncKeyLocation) (i : Bytes) (e : Error) (m : Keys) → IsWeakerAt (set_status_at l i e m) m
unfolding set_status_at get
set_status_at-IsWeakerAt l i e [] k ks' h = ground (arith, h)
set_status_at-IsWeakerAt l i e ((x, ks) ∷ m) k ks' h = elim (Bool-cases (location_eq l x)) [
  | inl here ↦ elim (Bool-cases (location_eq k x)) [
    | inl at ↦ (
      ks,
      rw at refl,
      subst (λ b. IsWeaker b ks) (cc (rw (here, at) at h)) (set_status-IsWeaker i e ks),
    )
    | inr off ↦ (ks', rw off (rw (here, off) at h), IsWeaker-refl ks')
  ]
  | inr past ↦ elim (Bool-cases (location_eq k x)) [
    | inl at ↦ (ks', rw at (rw (past, at) at h), IsWeaker-refl ks')
    | inr off ↦
        let (ks0, found, w) = set_status_at-IsWeakerAt l i e m k ks' (rw (past, off) at h) in
        (ks0, rw off found, w)
  ]
]

set_status_at-FailsAt :
    (l : EncKeyLocation) (i : Bytes) (e : Error) (m : Keys) → FailsAt (set_status_at l i e m) l i
unfolding set_status_at get
set_status_at-FailsAt l i e [] ks h = ground (arith, h)
set_status_at-FailsAt l i e ((x, k) ∷ m) ks h = elim (Bool-cases (location_eq l x)) [
  | inl here ↦ subst (λ b. Fails b i) (cc (rw (here, here) at h)) (set_status-Fails i e k)
  | inr past ↦ set_status_at-FailsAt l i e m ks (rw (past, past) at h)
]

-- A key is among those that the verifier is asked about, with this request.
abbrev pub Asked :
    List ((EncKeyLocation × Bytes) × VerificationRequest)
    → EncKeyLocation
    → Bytes
    → VerificationRequest
    → Type 0
Asked [] l i r = ⊥
Asked (p ∷ ps) l i r = (p ≡ ((l, i), r)) ⊎ Asked ps l i r

Asked-before :
    (ps qs : List ((EncKeyLocation × Bytes) × VerificationRequest)) (l : EncKeyLocation) (i : Bytes)
    (r : VerificationRequest)
    → Asked ps l i r
    → Asked (ps ++ qs) l i r
Asked-before [] qs l i r h = elim h [ ]
Asked-before (p ∷ ps) qs l i r (inl e) = inl e
Asked-before (p ∷ ps) qs l i r (inr h) = inr (Asked-before ps qs l i r h)

Asked-after :
    (ps qs : List ((EncKeyLocation × Bytes) × VerificationRequest)) (l : EncKeyLocation) (i : Bytes)
    (r : VerificationRequest)
    → Asked qs l i r
    → Asked (ps ++ qs) l i r
Asked-after [] qs l i r h = h
Asked-after (p ∷ ps) qs l i r h = inr (Asked-after ps qs l i r h)

requests_at-Asked :
    (l : EncKeyLocation) (m : Map Bytes DecryptedEncKey) (i : Bytes) (a : DecryptedEncKey)
    → get i m ≡ some a
    → needs_verifier a ≡ true
    → Asked (requests_at l m) l i (request_of a)
unfolding requests_at get
requests_at-Asked l [] i a found h = ground (arith, found)
requests_at-Asked l ((x, k) ∷ m) i a found h = elim (Bool-cases (bytes_eq i x)) [
  | inl here ↦
      let same : k ≡ a = cc (rw here at found) in
      rw (ap needs_verifier same ∙ h) (
        inl (
          ap (λ (y : Bytes). ((l, y), request_of k)) (sym (bytes_eq→eq i x here))
          ∙ ap (λ y. ((l, i), request_of y)) same))
  | inr past ↦
      let ih = requests_at-Asked l m i a (rw past at found) h in
      elim (Bool-cases (needs_verifier k)) [ inl e ↦ rw e (inr ih) | inr e ↦ rw e ih ]
]

pub requests-Asked :
    (m : Keys) (l : EncKeyLocation) (ks : Map Bytes DecryptedEncKey) (i : Bytes)
    (a : DecryptedEncKey)
    → get l m ≡ some ks
    → get i ks ≡ some a
    → needs_verifier a ≡ true
    → Asked (requests m) l i (request_of a)
unfolding requests get
requests-Asked [] l ks i a at found h = ground (arith, at)
requests-Asked ((x, k) ∷ m) l ks i a at found h = elim (Bool-cases (location_eq l x)) [
  | inl here ↦
      let same : k ≡ ks = cc (rw here at at) in
      Asked-before (requests_at x k) (requests m) l i (request_of a) (
        subst (λ y. Asked (requests_at y k) l i (request_of a)) (location_eq→eq l x here)
          (requests_at-Asked l k i a (ap (get i) same ∙ found) h))
  | inr past ↦
      Asked-after (requests_at x k) (requests m) l i (request_of a)
        (requests-Asked m l ks i a (rw past at at) found h)
]

-- One answer.
answered : EncKeyLocation → Bytes → Bool → Keys → Keys
answered l i answer m = if answer then m else set_status_at l i user_verification_failure m

answered-IsWeakerAt :
    (l : EncKeyLocation) (i : Bytes) (answer : Bool) (m : Keys)
    → IsWeakerAt (answered l i answer m) m
unfolding answered
answered-IsWeakerAt l i true m = IsWeakerAt-refl m
answered-IsWeakerAt l i false m = set_status_at-IsWeakerAt l i user_verification_failure m

pub apply_answers-IsWeakerAt :
    (ps : List ((EncKeyLocation × Bytes) × VerificationRequest)) (answers : List Bool) (m : Keys)
    → IsWeakerAt (apply_answers ps answers m) m
unfolding apply_answers answered
apply_answers-IsWeakerAt [] answers m = IsWeakerAt-refl m
apply_answers-IsWeakerAt (p ∷ ps) [] m = IsWeakerAt-refl m
apply_answers-IsWeakerAt (((l, i), r) ∷ ps) (answer ∷ answers) m =
    let n = answered l i answer m in
    IsWeakerAt-trans (apply_answers ps answers n) n m (apply_answers-IsWeakerAt ps answers n)
      (answered-IsWeakerAt l i answer m)

-- A key of a user that is not trusted fails.
pub apply_answers-FailsAt :
    (trusted : VerificationRequest → Bool)
    (ps : List ((EncKeyLocation × Bytes) × VerificationRequest)) (m : Keys) (l : EncKeyLocation)
    (i : Bytes) (r : VerificationRequest)
    → Asked ps l i r
    → trusted r ≡ false
    → FailsAt (apply_answers ps (map (λ p. trusted p.1) ps) m) l i
unfolding apply_answers answered
apply_answers-FailsAt trusted [] m l i r h untrusted = elim h [ ]
apply_answers-FailsAt trusted (((k, j), q) ∷ ps) m l i r (inl e) untrusted =
    let n = answered k j (trusted q) m in
    let here : trusted q ≡ false =
      ap (λ (p : (EncKeyLocation × Bytes) × VerificationRequest). trusted p.1) e ∙ untrusted in
    IsWeakerAt-FailsAt (apply_answers ps (map (λ p. trusted p.1) ps) n) n l i
      (apply_answers-IsWeakerAt ps (map (λ p. trusted p.1) ps) n)
      (rw here (
        subst
          (λ (p : (EncKeyLocation × Bytes) × VerificationRequest).
            FailsAt (set_status_at k j user_verification_failure m) p.0.0 p.0.1)
          e (set_status_at-FailsAt k j user_verification_failure m)))
apply_answers-FailsAt trusted (((k, j), q) ∷ ps) m l i r (inr h) untrusted =
    apply_answers-FailsAt trusted ps (answered k j (trusted q) m) l i r h untrusted
