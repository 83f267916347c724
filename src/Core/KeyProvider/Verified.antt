-- ===== src/Core/KeyProvider/Verified.antt =====
-- The keys that are handed out as good have passed every check.
use privmx_endpoint.Common.{
  ltb, if◌then◌else◌, Bool-cases, ok, Result-cases, length, Bytes, bytes_eq, bytes_eq→eq, ◌≤◌, ◌≡◌,
  sym, ap, ◌∙◌, inl, inr, true, false, some, [], ◌∷◌, arith, bytes_eq_sym,
}
use mathlib.Core.Path.{subst}
use privmx_endpoint.Utils.Key.{bytes_key}
use privmx_endpoint.Utils.ThreadSaveMap.{Map, get}
use privmx_endpoint.Core.KeyProvider.{DecryptedEncKey, EncKeyLocation, KeyEntry, Services}
use privmx_endpoint.Core.KeyProvider.Checks.{
  is_checked, needs_verifier, verify_one, verify_data, verify_for_duplication,
}
use privmx_endpoint.Core.KeyProvider.Decryption.{decrypt_all, decrypt_and_verify_keys}
use privmx_endpoint.Core.KeyProvider.Weakening.{Weaker-eq}
use privmx_endpoint.Core.KeyProvider.Duplicates.{
  mark_duplicates-IsWeaker, verify_for_duplication-Fails,
}

-- A key that has not failed names its container.
abbrev pub IsOf : EncKeyLocation → DecryptedEncKey → Type 0
IsOf location k =
    (bytes_eq k.dio.context_id location.context_id ≡ true)
    × (bytes_eq k.dio.resource_id location.resource_id ≡ true)

verify_one-IsOf :
    (location : EncKeyLocation) (k : DecryptedEncKey)
    → needs_verifier (verify_one location k) ≡ true
    → IsOf location (verify_one location k)
unfolding verify_one
verify_one-IsOf location k h = ground (arith, h)

verify_data-IsOf :
    (location : EncKeyLocation) (m : Map Bytes DecryptedEncKey) (i : Bytes) (a : DecryptedEncKey)
    → get i (verify_data location m) ≡ some a
    → needs_verifier a ≡ true
    → IsOf location a
unfolding verify_data get
verify_data-IsOf location [] i a found h = ground (arith, found)
verify_data-IsOf location ((x, k) ∷ m) i a found h = elim (Bool-cases (bytes_eq i x)) [
  | inl here ↦
      let same : verify_one location k ≡ a = cc (rw here at found) in
      subst (IsOf location) same (verify_one-IsOf location k (ap needs_verifier same ∙ h))
  | inr past ↦ verify_data-IsOf location m i a (rw past at found) h
]

-- Two different identifiers need two keys.
few_keys :
    (m : Map Bytes DecryptedEncKey) (i j : Bytes) (a b : DecryptedEncKey)
    → length m ≤ 1
    → get i m ≡ some a
    → get j m ≡ some b
    → bytes_eq i j ≡ false
    → ⊥
unfolding get
few_keys [] i j a b h fa fb ne = ground (arith, fa)
few_keys ((x, k) ∷ []) i j a b h fa fb ne = elim (Bool-cases (bytes_eq i x)) [
  | inr past ↦ ground (arith, past, fa)
  | inl here ↦ elim (Bool-cases (bytes_eq j x)) [
    | inr past ↦ ground (arith, past, fb)
    | inl there ↦
        let same : bytes_eq j x ≡ false = bytes_eq_sym j x ∙ (rw (bytes_eq→eq i x here) at ne) in
        ground (arith, same, there)
  ]
]
few_keys ((x, k) ∷ (y, l) ∷ m) i j a b h fa fb ne = absurd (omega arith)

-- Two keys of a container with a creator differ in their random identifiers or timestamps.
abbrev pub AreDistinct : Map Bytes DecryptedEncKey → Type 0
AreDistinct m =
    (i j : Bytes) (a b : DecryptedEncKey)
    → get i m ≡ some a
    → get j m ≡ some b
    → bytes_eq i j ≡ false
    → is_checked a ≡ true
    → is_checked b ≡ true
    → ¬ ((a.dio.random_id ≡ b.dio.random_id) × (a.dio.timestamp ≡ b.dio.timestamp))

pub record IsVerified (location : EncKeyLocation) (m : Map Bytes DecryptedEncKey) : Type 0 where
  pub of_container :
      (i : Bytes) (a : DecryptedEncKey)
      → get i m ≡ some a
      → needs_verifier a ≡ true
      → IsOf location a
  pub distinct : AreDistinct m

verify_data-IsVerified :
    (location : EncKeyLocation) (d : Map Bytes DecryptedEncKey)
    → IsVerified location (
        if ltb 1 (length (verify_data location d))
        then verify_for_duplication (verify_data location d)
        else verify_data location d)
unfolding verify_for_duplication
verify_data-IsVerified location d =
    let v = verify_data location d in
    elim (Bool-cases (ltb 1 (length v))) [
      | inr few ↦ rw few (record {
        of_container = verify_data-IsOf location d;
        distinct = λ i j a b fa fb ne ca cb same. few_keys v i j a b (ground (arith, few)) fa fb ne;
      })
      | inl many ↦ rw many (record {
        of_container = λ i a found h.
            let (a0, found0, w) = mark_duplicates-IsWeaker v [] v i a found in
            let same : a ≡ a0 = Weaker-eq a a0 w (ground (arith, h)) in
            verify_data-IsOf location d i a (found0 ∙ ap some (sym same)) h;
        distinct = verify_for_duplication-Fails v;
      })
    ]

module _ {J E : Type 0} (services : Services J E) where
  pub decrypt_and_verify_keys-IsVerified :
      (entries : Map Bytes (KeyEntry J)) (location : EncKeyLocation) (m : Map Bytes DecryptedEncKey)
      → decrypt_and_verify_keys services entries location ≡ ok m
      → IsVerified location m
  unfolding decrypt_and_verify_keys
  decrypt_and_verify_keys-IsVerified entries location m h =
      elim (Result-cases (decrypt_all services entries)) [
        | inl (d, e) ↦
            let done = rw e at h in
            subst (IsVerified location) (ground (arith, done)) (verify_data-IsVerified location d)
        | inr (x, e) ↦ absurd (ground (arith, e, h))
      ]
