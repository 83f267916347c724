-- ===== src/Core/ContainerKeyCache/Laws.antt =====
-- What the cache gives out.
use mathlib.Core.Option.{some-injective, none-ne-some}
use privmx_endpoint.Common.{
  ltb, if◌then◌else◌, ==_iff, Bool-cases, Option-cases, length, Bytes, bytes_eq, bytes_eq→eq, ℕ,
  ◌≤◌, ◌≡◌, refl, sym, ap, ◌∙◌, ◌⊎◌, inl, inr, Bool, true, false, Option, none, some, List, [], ◌∷◌,
  arith,
}
use privmx_endpoint.Utils.Key.{bytes_key}
use privmx_endpoint.Utils.ThreadSaveMap.{get}
use privmx_endpoint.Utils.ThreadSaveMap
use privmx_endpoint.Utils.ThreadSaveMap.Laws.{get-set_same}
use privmx_endpoint.Core.ContainerKeyCache.{
  Cache, CachedModuleKeys, KeyEntry, get_cached_module_keys, get_keys, set, missing_ids, erase_id,
  contains_id, has_required_ids, is_too_old,
}

-- The version that the cache has of a container, with the least number where it has none.
abbrev pub version_of : Option CachedModuleKeys → ℕ
version_of none = 0
version_of (some k) = k.module_version

set-old :
    (s : Cache) (id : Bytes) (new_keys old : CachedModuleKeys)
    → get id s ≡ some old
    → ltb new_keys.module_version old.module_version ≡ true
    → set s id new_keys false ≡ s
unfolding get_cached_module_keys set
set-old s id new_keys old e t = rw (set, e, t) refl

set-new :
    (s : Cache) (id : Bytes) (new_keys old : CachedModuleKeys)
    → get id s ≡ some old
    → ltb new_keys.module_version old.module_version ≡ false
    → set s id new_keys false ≡ ThreadSaveMap.set id new_keys s
unfolding get_cached_module_keys set
set-new s id new_keys old e f = rw (set, e, f) refl

-- A set without force never lowers the version that the cache has of the container, a missing one
-- counting as 0.
pub set-version :
    (s : Cache) (id : Bytes) (new_keys : CachedModuleKeys)
    → version_of (get_cached_module_keys s id)
      ≤ version_of (get_cached_module_keys (set s id new_keys false) id)
unfolding set get_cached_module_keys
set-version s id new_keys = elim (Option-cases (get id s)) [
  | inl e ↦ rw e (omega arith)
  | inr e ↦ elim (Bool-cases (ltb new_keys.module_version e.0.module_version)) [
    | inl t ↦ ap_version (set-old s id new_keys e.0 e.1 t)
    | inr f ↦
        rw (e.1, set-new s id new_keys e.0 e.1 f, get-set_same id new_keys s) (ground (arith, f))
  ]
]
  where
    ap_version :
        set s id new_keys false ≡ s
        → version_of (get id s) ≤ version_of (get id (set s id new_keys false))
    ap_version e = rw e (omega arith)

-- One of the keys has the identifier.
abbrev pub HasKey : Bytes → List KeyEntry → Type 0
HasKey id [] = ⊥
HasKey id (k ∷ ks) = (k.key_id ≡ id) ⊎ HasKey id ks

-- An identifier is in the list.
abbrev pub IsIn : Bytes → List Bytes → Type 0
IsIn id [] = ⊥
IsIn id (x ∷ xs) = (x ≡ id) ⊎ IsIn id xs

erase-IsIn :
    (other id : Bytes) (ids : List Bytes)
    → IsIn id ids
    → (other ≡ id) ⊎ IsIn id (erase_id other ids)
unfolding erase_id
erase-IsIn other id [] h = absurd h
erase-IsIn other id (x ∷ xs) h = elim (Bool-cases (bytes_eq other x)) [
  | inl t ↦
      rw t (elim h [ inl e ↦ inl (bytes_eq→eq other x t ∙ e) | inr i ↦ erase-IsIn other id xs i ])
  | inr f ↦ rw f (elim h [
    | inl e ↦ inr (inl e)
    | inr i ↦ elim (erase-IsIn other id xs i) [ inl e ↦ inl e | inr m ↦ inr (inr m) ]
  ])
]

missing-has :
    (keys : List KeyEntry) (ids : List Bytes) (id : Bytes)
    → IsIn id ids
    → IsIn id (missing_ids keys ids) ⊎ HasKey id keys
unfolding missing_ids
missing-has [] ids id h = inl h
missing-has (k ∷ ks) ids id h = elim (kept (contains_id k.key_id ids)) [
  | inl e ↦ inr (inl e)
  | inr i ↦
      elim (missing-has ks (if contains_id k.key_id ids then erase_id k.key_id ids else ids) id i) [
        | inl m ↦ inl m
        | inr g ↦ inr (inr g)
      ]
]
  where
    kept : (b : Bool) → (k.key_id ≡ id) ⊎ IsIn id (if b then erase_id k.key_id ids else ids)
    kept true = erase-IsIn k.key_id id ids h
    kept false = inr h

no_ids : (id : Bytes) (ids : List Bytes) → length ids ≡ 0 → ¬ (IsIn id ids)
no_ids id [] e h = h
no_ids id (x ∷ xs) e h = omega (arith, e)

-- Keys that are given out are the cached ones, and no required identifier is missing.
get_keys-some :
    (s : Cache) (module_id : Bytes) (ids : List Bytes) (minimum : Option ℕ) (k : CachedModuleKeys)
    → get_keys s module_id (some ids) minimum ≡ some k
    → (get_cached_module_keys s module_id ≡ some k) × (length (missing_ids k.keys ids) ≡ 0)
unfolding get_keys
get_keys-some s module_id ids minimum k e =
    elim (Option-cases (get_cached_module_keys s module_id)) [
      | inl n ↦ absurd (nothing (rw (get_keys, n) refl))
      | inr c ↦ elim (Bool-cases (has_required_ids (some ids) c.0)) [
        | inl t ↦ elim (Bool-cases (is_too_old (some ids) minimum c.0)) [
          | inl old ↦ absurd (nothing (rw (get_keys, c.1, t, old) refl))
          | inr f ↦ given c.0 c.1 t (just c.0 (rw (get_keys, c.1, t, f) refl))
        ]
        | inr f ↦ absurd (nothing (rw (get_keys, c.1, f) refl))
      ]
    ]
  where
    nothing : ¬ (get_keys s module_id (some ids) minimum ≡ none)
    nothing n = none-ne-some k (sym n ∙ e)

    just : (old : CachedModuleKeys) → get_keys s module_id (some ids) minimum ≡ some old → old ≡ k
    just old g = some-injective old k (sym g ∙ e)

    given :
        (old : CachedModuleKeys)
        → get_cached_module_keys s module_id ≡ some old
        → has_required_ids (some ids) old ≡ true
        → old ≡ k
        → (get_cached_module_keys s module_id ≡ some k) × (length (missing_ids k.keys ids) ≡ 0)
    given old g t same = (
      g ∙ ap some same,
      (==_iff (length (missing_ids k.keys ids)) 0).0
          (unfold has_required_ids in sym (ap (has_required_ids (some ids)) same) ∙ t),
    )

-- Keys that the cache gives out for required identifiers contain a key for each of them.
pub get_keys-required :
    (s : Cache) (module_id : Bytes) (ids : List Bytes) (minimum : Option ℕ) (k : CachedModuleKeys)
    (id : Bytes)
    → get_keys s module_id (some ids) minimum ≡ some k
    → IsIn id ids
    → HasKey id k.keys
unfolding get_keys has_required_ids
get_keys-required s module_id ids minimum k id e h = elim (missing-has k.keys ids id h) [
  | inl m ↦
      absurd (no_ids id (missing_ids k.keys ids) (get_keys-some s module_id ids minimum k e).1 m)
  | inr g ↦ g
]
