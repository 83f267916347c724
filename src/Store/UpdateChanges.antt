-- ===== src/Store/UpdateChanges.antt =====
-- endpoint/store/src/FileHandler.cpp, createListOfUpdateChangesFromUpdateChunkData and updateOnServer:
-- changed chunks are joined to larger changes, which are sent as operations, two changes in a request.
pub mod Squashing
pub mod Requests
use privmx_endpoint.Common.{
  ltb, ◌==◌, if◌then◌else◌, u64, length, Bytes, ℕ, zero, suc, ◌+◌, ◌*◌, ◌/◌, Bool, true, ◌&&◌,
  Option, none, some, List, [], ◌∷◌, ◌++◌,
}
use privmx_endpoint.Store.ChunkEncryptor.{Chunk, hmac_size}

pub record UpdateChunkData : Type 0 where
  pub chunk : Chunk
  pub chunk_index : ℕ
  pub plainfile_size_change : ℕ
  pub encryptedfile_size_change : ℕ

pub record UpdateChanges : Type 0 where
  pub change_data : Bytes
  pub data_pos : ℕ
  pub checksum : Bytes
  pub checksum_pos : ℕ

abbrev pub server_operations_limit : ℕ
server_operations_limit = 4

abbrev pub server_operation_size_limit : ℕ
server_operation_size_limit = 512 * 1024

-- The change of one chunk; `width` is the encrypted chunk size.
unfoldable pub single_change : ℕ → UpdateChunkData → UpdateChanges
single_change width u = record {
  change_data = u.chunk.bytes;
  data_pos = u64 (u.chunk_index * width);
  checksum = u.chunk.hmac;
  checksum_pos = u64 (u.chunk_index * hmac_size);
}

unfoldable pub joins : ℕ → UpdateChanges → UpdateChunkData → Bool
joins width c u =
    (u64 (c.data_pos + length c.change_data) == u64 (u.chunk_index * width))
    && ltb (length c.change_data + length u.chunk.bytes) server_operation_size_limit

unfoldable pub join_change : UpdateChanges → UpdateChunkData → UpdateChanges
join_change c u = record c {
  change_data = c.change_data ++ u.chunk.bytes;
  checksum = c.checksum ++ u.chunk.hmac;
}

-- The loop; `c` is the last change of the result so far.
unfoldable pub squash_into : ℕ → UpdateChanges → List UpdateChunkData → List UpdateChanges
unfolding joins join_change single_change
squash_into width c [] = c ∷ []
squash_into width c (u ∷ us) =
    let joined = squash_into width (join_change c u) us in
    let next = squash_into width (single_change width u) us in
    if joins width c u then joined else c ∷ next

unfoldable pub create_list_of_update_changes : ℕ → List UpdateChunkData → List UpdateChanges
create_list_of_update_changes width [] = []
create_list_of_update_changes width (u ∷ us) = squash_into width (single_change width u) us

pub data OperationType : Type 0 where
  file checksum_list : OperationType

pub record Operation : Type 0 where
  pub type : OperationType
  pub pos : ℕ
  pub operation_data : Bytes
  pub truncate : Bool

pub record WriteRequest : Type 0 where
  pub file_id : Bytes
  pub operations : List Operation
  pub meta : Bytes
  pub key_id : Bytes
  pub version : ℕ
  pub force : Bool

-- The two operations of a change; only those of the last change follow the caller's `truncate`.
unfoldable pub operations_of : UpdateChanges → Bool → List Operation
operations_of c truncate =
    record { type = file; pos = c.data_pos; operation_data = c.change_data; truncate = truncate }
    ∷ record {
      type = checksum_list;
      pos = c.checksum_pos;
      operation_data = c.checksum;
      truncate = truncate;
    }
    ∷ []

-- The inner loop: `room` changes at most; what is left over comes with the operations.
unfoldable pub take_batch : ℕ → List UpdateChanges → Bool → List Operation × List UpdateChanges
take_batch zero cs truncate = ([], cs)
take_batch (suc room) [] truncate = ([], [])
take_batch (suc room) (c ∷ cs) truncate =
    let later = take_batch room cs truncate in
    (operations_of c (elim cs [ [] ↦ truncate | d ∷ ds ↦ true ]) ++ later.0, later.1)

-- The outer loop: the operations of each request. The fuel is the number of requests.
unfoldable pub batches : ℕ → List UpdateChanges → Bool → Option (List (List Operation))
batches fuel [] truncate = some []
batches zero (c ∷ cs) truncate = none
batches (suc fuel) (c ∷ cs) truncate =
    let batch = take_batch (server_operations_limit / 2) (c ∷ cs) truncate in
    elim (batches fuel batch.1 truncate) [ none ↦ none | some bs ↦ some (batch.0 ∷ bs) ]
