-- ===== src/Core/KeyRequest/Laws.antt =====
-- Which entry a request has for an identifier, after keys have been added.
use privmx_endpoint.Common.{
  if◌then◌else◌, Bool-cases, Result, ok, err, Bytes, bytes_eq, bytes_eq→eq, ◌≡◌, refl, sym, ap, ◌∙◌,
  inl, inr, true, false, Option, none, some, List, [], ◌∷◌, map, arith,
  key_provider_request_completed, bytes_eq_sym,
}
use privmx_endpoint.Utils.Key.{bytes_key}
use privmx_endpoint.Utils.ThreadSaveMap.{Map, get, set}
use privmx_endpoint.Utils.ThreadSaveMap.Laws.{get-set_same, get-set_other}
use privmx_endpoint.Core.ContainerKeyCache.{contains_id, erase_id}
use privmx_endpoint.Core.KeyProvider.{EncKeyLocation, KeyEntry, location_eq}
use privmx_endpoint.Core.KeyProvider.Users.{location_key}
use privmx_endpoint.Core.KeyRequest.{
  KeyRequest, no_entry, entry_with, assign_all, assign_found, assign_at, add_one, add_many,
  take_entries, wanted_entries,
}

contains-erase_same : (i : Bytes) (ids : List Bytes) → contains_id i (erase_id i ids) ≡ false
unfolding contains_id erase_id
contains-erase_same i [] = refl
contains-erase_same i (x ∷ xs) = elim (Bool-cases (bytes_eq i x)) [
  | inl here ↦ rw here (contains-erase_same i xs)
  | inr past ↦ rw (past, past) (contains-erase_same i xs)
]

contains-erase_other :
    (i j : Bytes) (ids : List Bytes)
    → bytes_eq i j ≡ false
    → contains_id i (erase_id j ids) ≡ contains_id i ids
unfolding contains_id erase_id
contains-erase_other i j [] ne = refl
contains-erase_other i j (x ∷ xs) ne = elim (Bool-cases (bytes_eq j x)) [
  | inl here ↦
      rw (here, ap (bytes_eq i) (sym (bytes_eq→eq j x here)) ∙ ne) (contains-erase_other i j xs ne)
  | inr past ↦ rw past (ap (λ b. if bytes_eq i x then true else b) (contains-erase_other i j xs ne))
]

module _ {J : Type 0} where
  -- The identifiers that are left get an empty entry.
  assign-no_entry :
      (ids : List Bytes) (i : Bytes) (m : Map Bytes (KeyEntry J))
      → get i (assign_all (map no_entry ids) m)
        ≡ (if contains_id i ids then some (no_entry i) else get i m)
  unfolding assign_all contains_id
  assign-no_entry [] i m = refl
  assign-no_entry (x ∷ xs) i m = elim (Bool-cases (bytes_eq i x)) [
    | inl here ↦
        rw
          (
            here,
            assign-no_entry xs i (set x (no_entry x) m),
            sym (bytes_eq→eq i x here),
            get-set_same i (no_entry i) m,
          )
          (ground arith)
    | inr past ↦
        rw
          (past, assign-no_entry xs i (set x (no_entry x) m), get-set_other x i (no_entry x) m past)
          refl
  ]

  take_entries_wanted :
      (k : KeyEntry J) (ks : List (KeyEntry J)) (ids : List Bytes)
      → contains_id k.key_id ids ≡ true
      → wanted_entries (k ∷ ks) ids ≡ k ∷ wanted_entries ks (erase_id k.key_id ids)
  unfolding wanted_entries take_entries
  take_entries_wanted k ks ids h = rw (h, take_entries) refl

  take_entries_unwanted :
      (k : KeyEntry J) (ks : List (KeyEntry J)) (ids : List Bytes)
      → contains_id k.key_id ids ≡ false
      → wanted_entries (k ∷ ks) ids ≡ wanted_entries ks ids
  unfolding wanted_entries take_entries
  take_entries_unwanted k ks ids h = rw (h, take_entries) refl

  assign-wanted_entries :
      (keys : List (KeyEntry J)) (ids : List Bytes) (i : Bytes) (m : Map Bytes (KeyEntry J))
      → get i (assign_all (wanted_entries keys ids) m)
        ≡ (if contains_id i ids then some (entry_with i keys) else get i m)
  unfolding assign_all wanted_entries take_entries entry_with
  assign-wanted_entries [] ids i m = assign-no_entry ids i m
  assign-wanted_entries (k ∷ ks) ids i m = elim (Bool-cases (contains_id k.key_id ids)) [
    | inl wanted ↦
        let ids' = erase_id k.key_id ids in
        ap (λ l. get i (assign_all l m)) (take_entries_wanted k ks ids wanted)
        ∙ assign-wanted_entries ks ids' i (set k.key_id k m)
        ∙ elim (Bool-cases (bytes_eq k.key_id i)) [
          | inl here ↦
              let same = bytes_eq→eq k.key_id i here in
              rw
                (
                  here,
                  sym same,
                  contains-erase_same k.key_id ids,
                  get-set_same k.key_id k m,
                  wanted,
                )
                refl
          | inr past ↦
              let past' = bytes_eq_sym i k.key_id ∙ past in
              rw
                (
                  past,
                  contains-erase_other i k.key_id ids past',
                  get-set_other k.key_id i k m past',
                )
                refl
        ]
    | inr unwanted ↦
        ap (λ l. get i (assign_all l m)) (take_entries_unwanted k ks ids unwanted)
        ∙ assign-wanted_entries ks ids i m
        ∙ elim (Bool-cases (bytes_eq k.key_id i)) [
          | inl here ↦ rw (here, sym (bytes_eq→eq k.key_id i here), unwanted) refl
          | inr past ↦ rw past refl
        ]
  ]

  abbrev pub in_container : Bytes → Option (Map Bytes (KeyEntry J)) → Option (KeyEntry J)
  in_container id none = none
  in_container id (some m) = get id m

  -- What a request has for an identifier in a container.
  abbrev pub requested : EncKeyLocation → Bytes → KeyRequest J → Option (KeyEntry J)
  requested location id r = in_container id (get location r.request_data)

  abbrev or_empty : Option (Map Bytes (KeyEntry J)) → Map Bytes (KeyEntry J)
  or_empty none = []
  or_empty (some m) = m

  get-or_empty :
      (id : Bytes) (o : Option (Map Bytes (KeyEntry J))) → get id (or_empty o) ≡ in_container id o
  unfolding get
  get-or_empty id none = refl
  get-or_empty id (some m) = refl

  assign_found-eq :
      (ks : List (KeyEntry J)) (location : EncKeyLocation) (r : KeyRequest J)
      (o : Option (Map Bytes (KeyEntry J)))
      → assign_found ks location r o
        ≡ record r { request_data = set location (assign_all ks (or_empty o)) r.request_data }
  unfolding assign_found
  assign_found-eq ks location r none = refl
  assign_found-eq ks location r (some m) = refl

  requested-assign_at :
      (ks : List (KeyEntry J)) (location : EncKeyLocation) (id : Bytes) (r : KeyRequest J)
      → requested location id (assign_at ks location r)
        ≡ get id (assign_all ks (or_empty (get location r.request_data)))
  unfolding assign_at
  requested-assign_at ks location id r =
      let o = get location r.request_data in
      ap (λ (q : KeyRequest J). requested location id q) (assign_found-eq ks location r o)
      ∙ ap (in_container id) (get-set_same location (assign_all ks (or_empty o)) r.request_data)

  requested-assign_at_other :
      (ks : List (KeyEntry J)) (location other : EncKeyLocation) (id : Bytes) (r : KeyRequest J)
      → location_eq other location ≡ false
      → requested other id (assign_at ks location r) ≡ requested other id r
  unfolding assign_at
  requested-assign_at_other ks location other id r ne =
      let o = get location r.request_data in
      ap (λ (q : KeyRequest J). requested other id q) (assign_found-eq ks location r o)
      ∙ ap (in_container id)
          (get-set_other location other (assign_all ks (or_empty o)) r.request_data ne)

  entry_with-key_id : (id : Bytes) (keys : List (KeyEntry J)) → (entry_with id keys).key_id ≡ id
  unfolding entry_with
  entry_with-key_id id [] = refl
  entry_with-key_id id (k ∷ ks) = elim (Bool-cases (bytes_eq k.key_id id)) [
    | inl here ↦ rw here (bytes_eq→eq k.key_id id here)
    | inr past ↦ rw past (entry_with-key_id id ks)
  ]

  add_one-open :
      (keys : List (KeyEntry J)) (id : Bytes) (location : EncKeyLocation) (r : KeyRequest J)
      → r.completed ≡ false
      → add_one keys id location r ≡ (assign_at (entry_with id keys ∷ []) location r, ok tt)
  unfolding add_one
  add_one-open keys id location r open' =
      let q = assign_at (entry_with id keys ∷ []) location r in
      ap (λ b. if b then (r, err key_provider_request_completed) else (q, ok tt)) open'

  add_many-open :
      (keys : List (KeyEntry J)) (ids : List Bytes) (location : EncKeyLocation) (r : KeyRequest J)
      → r.completed ≡ false
      → add_many keys ids location r ≡ (assign_at (wanted_entries keys ids) location r, ok tt)
  unfolding add_many
  add_many-open keys ids location r open' =
      let q = assign_at (wanted_entries keys ids) location r in
      ap (λ b. if b then (r, err key_provider_request_completed) else (q, ok tt)) open'

  requested-add_one :
      (keys : List (KeyEntry J)) (location : EncKeyLocation) (id : Bytes) (r : KeyRequest J)
      → r.completed ≡ false
      → requested location id (add_one keys id location r).0 ≡ some (entry_with id keys)
  unfolding assign_all
  requested-add_one keys location id r open' =
      let m = or_empty (get location r.request_data) in
      let e = entry_with id keys in
      ap (λ (p : KeyRequest J × Result (Unit {0})). requested location id p.0)
        (add_one-open keys id location r open')
      ∙ requested-assign_at (e ∷ []) location id r
      ∙ ap (λ i. get id (set i e m)) (entry_with-key_id id keys)
      ∙ get-set_same id e m

  requested-add_many :
      (keys : List (KeyEntry J)) (ids : List Bytes) (location : EncKeyLocation) (id : Bytes)
      (r : KeyRequest J)
      → r.completed ≡ false
      → requested location id (add_many keys ids location r).0
        ≡ (if contains_id id ids then some (entry_with id keys) else requested location id r)
  requested-add_many keys ids location id r open' =
      let o = get location r.request_data in
      ap (λ (p : KeyRequest J × Result (Unit {0})). requested location id p.0)
        (add_many-open keys ids location r open')
      ∙ requested-assign_at (wanted_entries keys ids) location id r
      ∙ assign-wanted_entries keys ids id (or_empty o)
      ∙ ap (λ x. if contains_id id ids then some (entry_with id keys) else x) (get-or_empty id o)

  -- For a request that is not completed, addMany does not throw, and for an identifier that was
  -- asked for the container then has what addOne would have given it: the first of the sent keys
  -- with that identifier, or an empty entry; what it had for an identifier that was not asked for
  -- stays, and so does what any other container has.
  pub add_many-add_one :
      (keys : List (KeyEntry J)) (ids : List Bytes) (location other : EncKeyLocation) (id : Bytes)
      (r : KeyRequest J)
      → r.completed ≡ false
      → location_eq other location ≡ false
      → ((add_many keys ids location r).1 ≡ ok tt)
        × (requested location id (add_many keys ids location r).0
            ≡ requested location id
                (if contains_id id ids then (add_one keys id location r).0 else r))
        × (requested location id (add_one keys id location r).0 ≡ some (entry_with id keys))
        × (requested other id (add_many keys ids location r).0 ≡ requested other id r)
  add_many-add_one keys ids location other id r open' ne =
      let one = requested-add_one keys location id r open' in
      (
        ap (λ (p : KeyRequest J × Result (Unit {0})). p.1)
            (add_many-open keys ids location r open'),
        requested-add_many keys ids location id r open' ∙ elim (Bool-cases (contains_id id ids)) [
          | inl wanted ↦ rw wanted (sym one)
          | inr unwanted ↦ rw unwanted refl
        ],
        one,
        ap (λ (p : KeyRequest J × Result (Unit {0})). requested other id p.0)
              (add_many-open keys ids location r open')
            ∙ requested-assign_at_other (wanted_entries keys ids) location other id r ne,
      )
