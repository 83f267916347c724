-- ===== src/Store/ChunkReader.antt =====
-- endpoint/store/src/ChunkReader.cpp: decrypted chunks, the last of which is kept. The objects that
-- the reader shares through pointers stand beside its own fields in `Files`.
pub mod Refinement
pub mod Encrypted
use privmx_endpoint.Common.{
  ◌==◌, if◌then◌else◌, Result, ok, err, ◌>>=◌, file_corrupted, Bytes, ℕ, ◌/◌, ◌%◌, not, ◌&&◌,
  Option, none, some,
}
use privmx_endpoint.Store.Crypto.{Crypto}
use privmx_endpoint.Store.ChunkEncryptor.{
  ChunkEncryptor, decrypt, get_encrypted_file_size, get_plain_chunk_size,
}
use privmx_endpoint.Store.HmacList.{HmacList, get_hash}
use privmx_endpoint.Store.ChunkDataProvider.{Server, Provider, get_chunk}

pub record DecryptedChunk : Type 0 where
  pub decrypted : Bytes
  pub index : ℕ

-- `FileDecryptionParams` without the resource identifier and the cipher type, which no operation here
-- reads.
pub record DecryptionParams : Type 0 where
  pub file_id : Bytes
  pub size_on_server : ℕ
  pub original_size : ℕ
  pub chunk_size : ℕ
  pub key : Bytes
  pub hmac : Bytes
  pub version : ℕ

pub record ChunkReader : Type 0 where
  pub version : ℕ
  pub last_chunk : Option DecryptedChunk

pub record Files : Type 0 where
  pub provider : Provider
  pub encryptor : ChunkEncryptor
  pub hash_list : HmacList
  pub reader : ChunkReader

-- The constructor.
unfoldable pub create : ChunkEncryptor → DecryptionParams → Result ChunkReader
create e params =
    if not (params.size_on_server == get_encrypted_file_size e params.original_size)
      && not (params.original_size == 0)
    then err file_corrupted
    else ok (record { version = params.version; last_chunk = none })

unfoldable pub file_pos_to_file_chunk_index : ChunkEncryptor → ℕ → ℕ
unfolding get_plain_chunk_size
file_pos_to_file_chunk_index e pos = pos / get_plain_chunk_size e

unfoldable pub file_pos_to_pos_in_file_chunk : ChunkEncryptor → ℕ → ℕ
unfolding get_plain_chunk_size
file_pos_to_pos_in_file_chunk e pos = pos % get_plain_chunk_size e

-- The kept chunk, if it is the one with this index.
unfoldable pub kept_chunk : Option DecryptedChunk → ℕ → Option Bytes
kept_chunk none i = none
kept_chunk (some d) i = if d.index == i then some d.decrypted else none

unfoldable pub fetch_chunk : Crypto → Server → Files → ℕ → Provider × Result Bytes
fetch_chunk c server s i =
    let got = get_chunk server s.provider i s.reader.version in
    (
      got.0,
      got.1 >>= λ chunk. get_hash s.hash_list i >>= λ hash.
          decrypt c s.encryptor i (record { bytes = chunk; hmac = hash }),
    )

abbrev keep : Files → ℕ → Provider × Result Bytes → Files × Result Bytes
keep s i (p, err e) = (record s { provider = p }, err e)
keep s i (p, ok plain) = (
  record s {
    provider = p;
    reader = record {
      version = s.reader.version;
      last_chunk = some (record { decrypted = plain; index = i });
    };
  },
  ok plain,
)

unfoldable pub get_decrypted_chunk : Crypto → Server → Files → ℕ → Files × Result Bytes
get_decrypted_chunk c server s i = elim (kept_chunk s.reader.last_chunk i) [
  | some plain ↦ (s, ok plain)
  | none ↦ keep s i (fetch_chunk c server s i)
]

unfoldable pub sync : ChunkReader → DecryptionParams → ChunkReader
sync r params = record r { version = params.version; last_chunk = none }

unfoldable pub update : ChunkReader → ℕ → ℕ → ChunkReader
update r version i = elim (kept_chunk r.last_chunk i) [
  | some plain ↦ record { version = version; last_chunk = none }
  | none ↦ record { version = version; last_chunk = r.last_chunk }
]
