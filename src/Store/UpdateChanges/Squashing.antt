-- ===== src/Store/UpdateChanges/Squashing.antt =====
-- Joining changes changes nothing of what is written, and keeps the limit of an operation's size.
use privmx_endpoint.Common.{
  Bool-cases, two64, u64, u64-eq_of_lt, length, length-append, Bytes, ℕ, ◌+◌, ◌*◌, ◌≤◌, ◌<◌, ◌≡◌,
  refl, sym, ap, ◌∙◌, inl, inr, true, List, [], ◌∷◌, ◌++◌, arith, splice, splice-append,
}
use privmx_endpoint.Store.UpdateChanges.{
  UpdateChunkData, UpdateChanges, single_change, joins, join_change, squash_into,
  create_list_of_update_changes, server_operation_size_limit,
}

-- The changes written one over another into the stored bytes, and into the stored checksums.
unfoldable pub write_data : List UpdateChanges → Bytes → Bytes
write_data [] s = s
write_data (c ∷ cs) s = write_data cs (splice c.data_pos c.change_data s)

unfoldable pub write_checksums : List UpdateChanges → Bytes → Bytes
write_checksums [] s = s
write_checksums (c ∷ cs) s = write_checksums cs (splice c.checksum_pos c.checksum s)

-- One change for each chunk.
unfoldable pub singles : ℕ → List UpdateChunkData → List UpdateChanges
singles width [] = []
singles width (u ∷ us) = single_change width u ∷ singles width us

-- The chunk has the index `i` and a tag of 32 bytes, and begins within what is stored; nothing wraps.
pub record IsPlaced (width i : ℕ) (u : UpdateChunkData) (s t : Bytes) : Type 0 where
  pub index : u.chunk_index ≡ i
  pub tag : length u.chunk.hmac ≡ 32
  pub inside : i * width ≤ length s
  pub small : i * width + length u.chunk.bytes < two64
  pub listed : i * 32 ≤ length t
  pub few : i * 32 < two64

-- The chunks have consecutive indices from `i` on, and each is placed where those before it are written.
abbrev pub ArePlaced : ℕ → ℕ → List UpdateChunkData → Bytes → Bytes → Type 0
ArePlaced width i [] s t = Unit {0}
ArePlaced width i (u ∷ us) s t =
    IsPlaced width i u s t
    × ArePlaced width (i + 1) us (splice (i * width) u.chunk.bytes s)
        (splice (i * 32) u.chunk.hmac t)

-- The last change so far begins within what is stored, and its checksums end where the next is due.
record IsOpen (c : UpdateChanges) (i : ℕ) (s t : Bytes) : Type 0 where
  inside : c.data_pos ≤ length s
  small : c.data_pos + length c.change_data < two64
  listed : c.checksum_pos ≤ length t
  ends : c.checksum_pos + length c.checksum ≡ i * 32

WrittenAs : List UpdateChanges → List UpdateChanges → Bytes → Bytes → Type 0
WrittenAs cs ds s t =
    (write_data cs s ≡ write_data ds s) × (write_checksums cs t ≡ write_checksums ds t)

change_at : ℕ → ℕ → UpdateChunkData → UpdateChanges
change_at width i u = record {
  change_data = u.chunk.bytes;
  data_pos = i * width;
  checksum = u.chunk.hmac;
  checksum_pos = i * 32;
}

single_change-change_at :
    (width i : ℕ) (u : UpdateChunkData) (s t : Bytes)
    → IsPlaced width i u s t
    → single_change width u ≡ change_at width i u
unfolding single_change change_at
single_change-change_at width i u s t p =
    rw (p.index, u64-eq_of_lt (i * width) (omega (arith, p.small)), u64-eq_of_lt (i * 32) p.few)

change_at-IsOpen :
    (width i : ℕ) (u : UpdateChunkData) (s t : Bytes)
    → IsPlaced width i u s t
    → IsOpen (change_at width i u) (i + 1) s t
unfolding change_at
change_at-IsOpen width i u s t p = record {
  inside = p.inside;
  small = p.small;
  listed = p.listed;
  ends = omega (arith, p.tag);
}

module _ (width i : ℕ) (c : UpdateChanges) (u : UpdateChunkData) (s t : Bytes)
    (k : joins width c u ≡ true) (o : IsOpen c i s t)
    (p : IsPlaced width i u
      (splice c.data_pos c.change_data s)
      (splice c.checksum_pos c.checksum t)) where
  -- A joined chunk begins where the change ends.
  joins-ends : c.data_pos + length c.change_data ≡ i * width
  unfolding joins u64
  joins-ends = ground (arith, k, o.small, p.small, p.index)

  join_data :
      splice c.data_pos (c.change_data ++ u.chunk.bytes) s
      ≡ splice (i * width) u.chunk.bytes (splice c.data_pos c.change_data s)
  join_data =
      splice-append c.data_pos c.change_data u.chunk.bytes s o.inside
      ∙ ap (λ n. splice n u.chunk.bytes (splice c.data_pos c.change_data s)) joins-ends

  join_checksums :
      splice c.checksum_pos (c.checksum ++ u.chunk.hmac) t
      ≡ splice (i * 32) u.chunk.hmac (splice c.checksum_pos c.checksum t)
  join_checksums =
      splice-append c.checksum_pos c.checksum u.chunk.hmac t o.listed
      ∙ ap (λ n. splice n u.chunk.hmac (splice c.checksum_pos c.checksum t)) o.ends

  join_change-IsOpen : IsOpen (join_change c u) (i + 1) s t
  unfolding join_change
  join_change-IsOpen = record {
    inside = o.inside;
    small = omega (arith, length-append c.change_data u.chunk.bytes, p.small, joins-ends);
    listed = o.listed;
    ends = omega (arith, length-append c.checksum u.chunk.hmac, p.tag, o.ends);
  }

-- What `squash_into` returns is written as its change and then each chunk.
squash_into-WrittenAs :
    (width i : ℕ) (c : UpdateChanges) (us : List UpdateChunkData) (s t : Bytes)
    → IsOpen c i s t
    → ArePlaced width i us (splice c.data_pos c.change_data s) (splice c.checksum_pos c.checksum t)
    → WrittenAs (squash_into width c us) (c ∷ singles width us) s t
unfolding WrittenAs squash_into singles write_data write_checksums change_at join_change
squash_into-WrittenAs width i c [] s t o p = (refl, refl)
squash_into-WrittenAs width i c (u ∷ us) s t o p = elim (Bool-cases (joins width c u)) [
  | inr k ↦
      rw (k, single_change-change_at width i u _ _ p.0)
        (squash_into-WrittenAs width (i + 1) (change_at width i u) us
          (splice c.data_pos c.change_data s) (splice c.checksum_pos c.checksum t)
          (change_at-IsOpen width i u _ _ p.0) p.1)
  | inl k ↦
      rw
        (
          k,
          single_change-change_at width i u _ _ p.0,
          sym (join_data width i c u s t k o p.0),
          sym (join_checksums width i c u s t k o p.0),
        )
        (squash_into-WrittenAs width (i + 1) (join_change c u) us s t
          (join_change-IsOpen width i c u s t k o p.0)
          (rw (join_data width i c u s t k o p.0, join_checksums width i c u s t k o p.0) p.1))
]

-- For chunks with consecutive indices, writing the joined changes one after another leaves the
-- same stored bytes and the same checksums as writing each chunk and its checksum by itself. Each
-- chunk begins within what is stored when it is written, its checksum has 32 bytes, and no
-- position wraps.
pub create_list_of_update_changes-write_data :
    (width i : ℕ) (us : List UpdateChunkData) (s t : Bytes)
    → ArePlaced width i us s t
    → (write_data (create_list_of_update_changes width us) s ≡ write_data (singles width us) s)
      × (write_checksums (create_list_of_update_changes width us) t
          ≡ write_checksums (singles width us) t)
unfolding create_list_of_update_changes singles write_data write_checksums WrittenAs change_at
create_list_of_update_changes-write_data width i [] s t p = (refl, refl)
create_list_of_update_changes-write_data width i (u ∷ us) s t p =
    rw (single_change-change_at width i u s t p.0) (
      squash_into-WrittenAs width (i + 1) (change_at width i u) us s t
        (change_at-IsOpen width i u s t p.0) p.1)

joins-fits :
    (width : ℕ) (c : UpdateChanges) (u : UpdateChunkData)
    → joins width c u ≡ true
    → length c.change_data + length u.chunk.bytes < server_operation_size_limit
unfolding joins
joins-fits width c u h = ground (arith, h)

-- Every change is smaller than the limit.
abbrev pub AreSmall : List UpdateChanges → Type 0
AreSmall [] = Unit {0}
AreSmall (c ∷ cs) = (length c.change_data < server_operation_size_limit) × AreSmall cs

abbrev pub ChunksAreSmall : List UpdateChunkData → Type 0
ChunksAreSmall [] = Unit {0}
ChunksAreSmall (u ∷ us) = (length u.chunk.bytes < server_operation_size_limit) × ChunksAreSmall us

squash_into-AreSmall :
    (width : ℕ) (c : UpdateChanges) (us : List UpdateChunkData)
    → length c.change_data < server_operation_size_limit
    → ChunksAreSmall us
    → AreSmall (squash_into width c us)
unfolding squash_into single_change join_change
squash_into-AreSmall width c [] h k = (h, tt)
squash_into-AreSmall width c (u ∷ us) h k = elim (Bool-cases (joins width c u)) [
  | inr e ↦ rw e (h, squash_into-AreSmall width (single_change width u) us k.0 k.1)
  | inl e ↦ rw e (squash_into-AreSmall width (join_change c u) us (joined e) k.1)
]
  where
    joined :
        joins width c u ≡ true
        → length (c.change_data ++ u.chunk.bytes) < server_operation_size_limit
    joined e = omega (arith, length-append c.change_data u.chunk.bytes, joins-fits width c u e)

-- Where every chunk is shorter than the limit of an operation's size, so is every joined change.
pub create_list_of_update_changes-AreSmall :
    (width : ℕ) (us : List UpdateChunkData)
    → ChunksAreSmall us
    → AreSmall (create_list_of_update_changes width us)
unfolding create_list_of_update_changes single_change
create_list_of_update_changes-AreSmall width [] k = tt
create_list_of_update_changes-AreSmall width (u ∷ us) k =
    squash_into-AreSmall width (single_change width u) us k.0 k.1
