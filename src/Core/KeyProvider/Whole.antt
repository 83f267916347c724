-- ===== src/Core/KeyProvider/Whole.antt =====
-- What getKeysAndVerify promises of the keys that it returns without a failure.
use privmx_endpoint.Common.{
  ==_refl, Bool-cases, ok, ◌>>=◌, Result-cases, length, Bytes, suc, ◌≡◌, refl, sym, ap, ◌∙◌, inl,
  inr, Bool, true, some, List, [], ◌∷◌, map, arith,
}
use mathlib.Core.Path.{subst}
use privmx_endpoint.Utils.Key.{bytes_key}
use privmx_endpoint.Utils.ThreadSaveMap.{Map, get}
use privmx_endpoint.Core.KeyProvider.{
  DecryptedEncKey, EncKeyLocation, KeyEntry, VerificationRequest, Services, location_eq,
}
use privmx_endpoint.Core.KeyProvider.Checks.{needs_verifier, request_of, requests, apply_answers}
use privmx_endpoint.Core.KeyProvider.Decryption.{
  decrypt_and_verify_keys, decrypt_locations, verify, verify_user_data, get_keys_and_verify,
}
use privmx_endpoint.Core.KeyProvider.Weakening.{Weaker-eq, IsWeaker}
use privmx_endpoint.Core.KeyProvider.Verified.{IsVerified, decrypt_and_verify_keys-IsVerified}
use privmx_endpoint.Core.KeyProvider.Users.{
  location_key, location_eq→eq, Keys, requests-Asked, apply_answers-IsWeakerAt,
  apply_answers-FailsAt,
}

length-map {ℓ κ} :
    {A : Type ℓ} {B : Type κ} (f : A → B) (xs : List A) → length (map f xs) ≡ length xs
length-map f [] = refl
length-map f (x ∷ xs) = ap suc (length-map f xs)

map-map {ℓ κ μ} :
    {A : Type ℓ} {B : Type κ} {C : Type μ} (g : B → C) (f : A → B) (xs : List A)
    → map g (map f xs) ≡ map (λ x. g (f x)) xs
map-map g f [] = refl
map-map g f (x ∷ xs) = ap (λ l. g (f x) ∷ l) (map-map g f xs)

IsVerified-IsWeaker :
    (l : EncKeyLocation) (m' m : Map Bytes DecryptedEncKey)
    → IsWeaker m' m
    → IsVerified l m
    → IsVerified l m'
IsVerified-IsWeaker l m' m w v = record {
  of_container = λ i a found h.
      let (b, found', w') = w i a found in
      let same : a ≡ b = Weaker-eq a b w' (ground (arith, h)) in
      v.of_container i a (found' ∙ ap some (sym same)) h;
  distinct = λ i j a b fa fb ne ca cb.
      let (a0, fa0, wa) = w i a fa in
      let (b0, fb0, wb) = w j b fb in
      let ea : a ≡ a0 = Weaker-eq a a0 wa (ground (arith, ca)) in
      let eb : b ≡ b0 = Weaker-eq b b0 wb (ground (arith, cb)) in
      v.distinct i j a b (fa0 ∙ ap some (sym ea)) (fb0 ∙ ap some (sym eb)) ne ca cb;
}

module _ {J E : Type 0} (services : Services J E) where
  decrypt_locations-IsVerified :
      (data' : Map EncKeyLocation (Map Bytes (KeyEntry J))) (m : Keys) (l : EncKeyLocation)
      (ks : Map Bytes DecryptedEncKey)
      → decrypt_locations services data' ≡ ok m
      → get l m ≡ some ks
      → IsVerified l ks
  unfolding decrypt_locations get
  decrypt_locations-IsVerified [] m l ks h at = ground (arith, h, at)
  decrypt_locations-IsVerified ((x, entries) ∷ rest) m l ks h at =
      elim (Result-cases (decrypt_and_verify_keys services entries x)) [
        | inr (e, eq) ↦ absurd (ground (arith, eq, h))
        | inl (k, eq) ↦ elim (Result-cases (decrypt_locations services rest)) [
          | inr (e, eq') ↦ absurd (ground (arith, eq, eq', h))
          | inl (n, eq') ↦
              let done = rw (eq, eq') at h in
              let at' : get l ((x, k) ∷ n) ≡ some ks =
                ap (get l) {x = (x, k) ∷ n} {y = m} (ground (arith, done)) ∙ at in
              elim (Bool-cases (location_eq l x)) [
                | inl here ↦
                    let same : k ≡ ks = cc (rw here at at') in
                    subst (λ y. IsVerified y ks) (sym (location_eq→eq l x here))
                      (subst (IsVerified x) same
                        (decrypt_and_verify_keys-IsVerified services entries x k eq))
                | inr past ↦ decrypt_locations-IsVerified rest n l ks eq' (rw past at at')
              ]
        ]
      ]

  module _ (trusted : VerificationRequest → Bool)
      (answers : (rs : List VerificationRequest)
        → services.user_verifier rs ≡ ok (map trusted rs)) where
    verify-trusted : (rs : List VerificationRequest) → verify services rs ≡ ok (map trusted rs)
    unfolding verify
    verify-trusted rs =
        rw (answers rs, verify) (rw (length-map trusted rs, ==_refl (length rs)) refl)

    verify_user_data-trusted :
        (n : Keys)
        → verify_user_data services n
          ≡ ok (apply_answers (requests n) (map (λ p. trusted p.1) (requests n)) n)
    unfolding verify_user_data
    verify_user_data-trusted n =
        ap (λ r. r >>= λ given. ok (apply_answers (requests n) given n))
          (verify-trusted (map (λ p. p.1) (requests n)))
        ∙ ap (λ given. ok (apply_answers (requests n) given n))
            (map-map trusted (λ (p : (EncKeyLocation × Bytes) × VerificationRequest). p.1)
              (requests n))

    -- For the keys that getKeysAndVerify returns of a container: a key of version 2 without a
    -- failure names that container and its creator was trusted by the application's verifier, and
    -- of two keys without a failure that have a creator the random identifiers or the timestamps
    -- differ. The verifier answers each request by itself.
    pub get_keys_and_verify-IsVerified :
        (data' : Map EncKeyLocation (Map Bytes (KeyEntry J))) (m : Keys) (l : EncKeyLocation)
        (ks : Map Bytes DecryptedEncKey)
        → get_keys_and_verify services data' ≡ ok m
        → get l m ≡ some ks
        → IsVerified l ks
          × ((i : Bytes) (a : DecryptedEncKey)
              → get i ks ≡ some a
              → needs_verifier a ≡ true
              → trusted (request_of a) ≡ true)
    unfolding get_keys_and_verify
    get_keys_and_verify-IsVerified data' m l ks h at =
        elim (Result-cases (decrypt_locations services data')) [
          | inr (e, eq) ↦ absurd (ground (arith, eq, h))
          | inl (n, eq) ↦
              let given =
                map (λ (p : (EncKeyLocation × Bytes) × VerificationRequest). trusted p.1)
                  (requests n) in
              let done : apply_answers (requests n) given n ≡ m =
                ground (arith, rw (eq, verify_user_data-trusted n) at h) in
              let (ks0, at0, w) =
                apply_answers-IsWeakerAt (requests n) given n l ks (ap (get l) done ∙ at) in
              (
                IsVerified-IsWeaker l ks ks0 w (decrypt_locations-IsVerified data' n l ks0 eq at0),
                λ i a found good. elim (Bool-cases (trusted (request_of a))) [
                  | inl fine ↦ fine
                  | inr bad ↦
                      let (b, found0, w') = w i a found in
                      let same : a ≡ b = Weaker-eq a b w' (ground (arith, good)) in
                      let fails =
                        apply_answers-FailsAt trusted (requests n) n l i (request_of a)
                          (requests-Asked n l ks0 i a at0 (found0 ∙ ap some (sym same)) good) bad ks
                          (ap (get l) done ∙ at) a found in
                      absurd (ground (arith, fails, good))
                ],
              )
        ]
