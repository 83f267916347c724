-- ===== src/Store/ChunkDataProvider.antt =====
-- endpoint/store/src/ChunkDataProvider.cpp: the encrypted chunks of a file, read from the server in
-- larger pieces ("server chunks"), the last of which is kept. `int64_t` versions, which the server
-- counts upwards from 0, are natural numbers.

pub mod Coherence
pub mod Rounding
pub mod Update
use privmx_endpoint.Common.{
  ltb, ◌==◌, if◌then◌else◌, two32, u32, u64, sub64, Result, ok, err, ◌>>◌, server_failure,
  file_version_mismatch, length, take, drop, Bytes, substr, ℕ, ◌+◌, ◌-◌, ◌*◌, ◌/◌, ◌%◌, Bool, false,
  not, ◌&&◌, Option, none, some, [], ◌++◌,
}

-- What the server answers to a request for the bytes from a position up to another.
pub data Reply : Type 0 where
  reply : Bytes → Reply
  version_mismatch : Reply
  other_failure : Reply

-- The server's side of the interface, a parameter.
pub record Server : Type 0 where
  -- Arguments: file, version, `from`, `to`.
  pub read_slice : Bytes → ℕ → ℕ → ℕ → Reply
  pub read_checksums : Bytes → Result Bytes

pub record Provider : Type 0 where
  pub encrypted_chunk_size : ℕ
  pub server_chunk_size : ℕ
  pub file_id : Bytes
  pub server_file_size : ℕ
  pub file_version : ℕ
  pub last_server_chunk : Bytes
  pub last_server_chunk_number : Option ℕ

-- The server's chunk size rounded up to a multiple of the encrypted chunk size. The `int64_t` of the
-- code agrees with this below 2 ^ 63.
unfoldable pub get_server_read_data_size : ℕ → ℕ → ℕ
get_server_read_data_size encrypted server =
    u64 (sub64 (u64 (server + encrypted)) 1 / encrypted * encrypted)

-- The constructor. The member's initialiser is -1, which is the last number of `uint32_t`.
unfoldable pub create : ℕ → ℕ → Bytes → ℕ → ℕ → Provider
create chunk_size server_chunk_size file_id server_file_size file_version = record {
  encrypted_chunk_size = chunk_size;
  server_chunk_size = get_server_read_data_size chunk_size server_chunk_size;
  file_id = file_id;
  server_file_size = server_file_size;
  file_version = file_version;
  last_server_chunk = [];
  last_server_chunk_number = some (two32 - 1);
}

abbrev or_keep : Option ℕ → ℕ → ℕ
or_keep none old = old
or_keep (some new) old = new

unfoldable pub sync : Provider → ℕ → ℕ → Option ℕ → Option ℕ → Provider
sync p version file_size chunk_size server_chunk_size = record {
  encrypted_chunk_size = or_keep chunk_size p.encrypted_chunk_size;
  server_chunk_size = or_keep server_chunk_size p.server_chunk_size;
  file_id = p.file_id;
  server_file_size = file_size;
  file_version = version;
  last_server_chunk = if ltb p.file_version version then [] else p.last_server_chunk;
  last_server_chunk_number =
      if ltb p.file_version version then none else p.last_server_chunk_number;
}

abbrev to_result : Reply → Result Bytes
to_result (reply b) = ok b
to_result version_mismatch = err file_version_mismatch
to_result other_failure = err server_failure

-- The parameter is a `uint32_t`, and `serverChunkNumber + 1` is computed in 32 bits.
unfoldable pub request_server_chunk : Server → Provider → ℕ → Result Bytes
request_server_chunk server p number = to_result (
    server.read_slice p.file_id p.file_version (u64 (p.server_chunk_size * u32 number))
      (u64 (p.server_chunk_size * u32 (u32 number + 1))))

abbrev is_cached : Provider → ℕ → Bool
is_cached p number = elim p.last_server_chunk_number [ none ↦ false | some k ↦ k == number ]

-- The piece of the kept server chunk that is the wanted chunk.
unfoldable pub cut_chunk : Provider → ℕ → Result Bytes
cut_chunk p pos =
    if ltb (length p.last_server_chunk) pos
    then ok []
    else substr p.last_server_chunk pos p.encrypted_chunk_size

unfoldable pub load_server_chunk : Server → Provider → ℕ → Provider × Result (Unit {0})
load_server_chunk server p number =
    if is_cached p number then (p, ok tt) else elim (request_server_chunk server p number) [
      | err e ↦ (p, err e)
      | ok b ↦
          (record p { last_server_chunk = b; last_server_chunk_number = some (u32 number) }, ok tt)
    ]

-- A request for another version forgets the kept server chunk.
unfoldable pub at_version : Provider → ℕ → Provider
at_version p version =
    if p.file_version == version
    then p
    else record p { last_server_chunk_number = none; file_version = version }

unfoldable pub get_chunk_from : Server → Provider → ℕ → Provider × Result Bytes
unfolding load_server_chunk
get_chunk_from server p from =
    let loaded = load_server_chunk server p (from / p.server_chunk_size) in
    (loaded.0, loaded.1 >> cut_chunk loaded.0 (from % p.server_chunk_size))

-- An exception leaves the state as it is then.
unfoldable pub get_chunk : Server → Provider → ℕ → ℕ → Provider × Result Bytes
get_chunk server p chunk_number file_version =
    let p' = at_version p file_version in
    get_chunk_from server p' (u64 (p'.encrypted_chunk_size * u32 chunk_number))

unfoldable pub get_current_checksums_from_bridge : Server → Provider → Result Bytes
get_current_checksums_from_bridge server p = server.read_checksums p.file_id

-- The kept server chunk with a chunk written over it.
unfoldable pub patch : Bytes → ℕ → Bytes → Bool → Bytes
patch old pos new truncate =
    take pos old
    ++ (new
        ++ (if not truncate && ltb (pos + length new) (length old)
            then drop (pos + length new) old
            else []))

unfoldable pub update : Provider → ℕ → ℕ → Bytes → ℕ → Bool → Provider
update p version chunk_number new file_size truncate =
    let from = u64 (p.encrypted_chunk_size * u32 chunk_number) in
    record p {
      last_server_chunk =
          if is_cached p (from / p.server_chunk_size)
          then patch p.last_server_chunk (from % p.server_chunk_size) new truncate
          else p.last_server_chunk;
      server_file_size = file_size;
      file_version = version;
    }
