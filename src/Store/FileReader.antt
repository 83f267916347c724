-- ===== src/Store/FileReader.antt =====
-- endpoint/store/src/FileReader.cpp: a range of a file, joined from its decrypted chunks.
pub mod Refinement
use privmx_endpoint.Common.{
  ltb, leb, ◌==◌, if◌then◌else◌, u64, sub64, Result, ok, err, ◌>>=◌, Bytes, substr, ℕ, zero, suc,
  ◌+◌, ◌-◌, [], ◌++◌,
}
use privmx_endpoint.Store.Crypto.{Crypto}
use privmx_endpoint.Store.ChunkDataProvider.{Server}
use privmx_endpoint.Store.ChunkReader.{
  Files, DecryptionParams, get_decrypted_chunk, file_pos_to_file_chunk_index,
  file_pos_to_pos_in_file_chunk,
}

pub record FileReader : Type 0 where
  pub plain_file_size : ℕ
  pub version : ℕ

unfoldable pub create : DecryptionParams → FileReader
create params = record { plain_file_size = params.original_size; version = params.version }

unfoldable pub sync : FileReader → DecryptionParams → FileReader
sync r params = record r { plain_file_size = params.original_size; version = params.version }

-- The loop over the chunks, by the number of rounds left, with what has been read so far.
unfoldable pub read_chunks : Crypto → Server → ℕ → ℕ → Bytes → Files → Files × Result Bytes
read_chunks c server zero i read s = (s, ok read)
read_chunks c server (suc rounds) i read s =
    let got = get_decrypted_chunk c server s i in
    elim got.1 [
      | err e ↦ (got.0, err e)
      | ok chunk ↦ read_chunks c server rounds (i + 1) (read ++ chunk) got.0
    ]

-- The joined chunks, cut.
unfoldable pub cut : Files × Result Bytes → ℕ → ℕ → Files × Result Bytes
cut r pos n = (r.0, r.1 >>= λ read. substr read pos n)

-- `read` past the end is cut to the file; the sum of the position and the length is a 64-bit word.
unfoldable pub read : Crypto → Server → FileReader → Files → ℕ → ℕ → Files × Result Bytes
read c server r s pos n =
    let size = if ltb r.plain_file_size (u64 (pos + n)) then sub64 r.plain_file_size pos else n in
    let start = file_pos_to_file_chunk_index s.encryptor pos in
    let stop = file_pos_to_file_chunk_index s.encryptor (sub64 (u64 (pos + size)) 1) in
    if leb r.plain_file_size pos
    then (s, ok [])
    else if size == 0
    then (s, ok [])
    else cut (read_chunks c server (stop + 1 - start) start [] s)
        (file_pos_to_pos_in_file_chunk s.encryptor pos) size
