-- ===== src/Store/ChunkDataProvider/Rounding.antt =====
-- The server's chunk size, rounded up to whole encrypted chunks: a new provider's sizes do not wrap.
use native.Mathlib.Nat.{lt-mul-div-succ, mul-div-le, le-div_iff_mul-le, mul_comm}
use privmx_endpoint.Common.{
  two32, two64, u64-eq_of_lt, sub64-eq, Bytes, ℕ, ◌+◌, ◌-◌, ◌*◌, ◌/◌, ◌≤◌, ◌<◌, ◌≡◌, arith,
}
use privmx_endpoint.Store.ChunkDataProvider.{create, get_server_read_data_size}
use privmx_endpoint.Store.ChunkDataProvider.Coherence.{IsSized, mul-le}

module _ (encrypted server n : ℕ) (some_bytes : 0 < encrypted) (some_server : 0 < server)
    (in_words : n + server + encrypted < two64) (in_numbers : n / server + 1 < two32) where
  -- The number of encrypted chunks in a server chunk.
  abbrev whole_chunks : ℕ
  whole_chunks = (server + encrypted - 1) / encrypted

  rounded_below : encrypted * whole_chunks ≤ server + encrypted - 1
  rounded_below = mul-div-le (server + encrypted - 1) encrypted

  rounded_above : server ≤ encrypted * whole_chunks
  rounded_above = grind (arith, lt-mul-div-succ (server + encrypted - 1) {b = encrypted} some_bytes)

  get_server_read_data_size-rounded :
      get_server_read_data_size encrypted server ≡ encrypted * whole_chunks
  unfolding get_server_read_data_size
  get_server_read_data_size-rounded =
      rw
        (
          u64-eq_of_lt (server + encrypted) (omega (arith, in_words)),
          sub64-eq (server + encrypted) 1 (omega (arith, some_bytes)) (omega (arith, in_words)),
          mul_comm whole_chunks encrypted,
        )
        (u64-eq_of_lt (encrypted * whole_chunks) (omega (arith, rounded_below, in_words)))

  -- A file has no more of the larger server chunks.
  fewer : n / get_server_read_data_size encrypted server ≤ n / server
  fewer = (le-div_iff_mul-le {k = server} {y = n} some_server).1 (
      rw get_server_read_data_size-rounded (
        grind (
          arith,
          rounded_above,
          mul-le (n / (encrypted * whole_chunks)) server (encrypted * whole_chunks) rounded_above,
          mul-div-le n (encrypted * whole_chunks),
        )))

  pub create-IsSized :
      (file_id : Bytes) (size version : ℕ)
      → IsSized (create encrypted server file_id size version) n
  unfolding create
  create-IsSized file_id size version = record {
    per_server_chunk = whole_chunks;
    server_size = get_server_read_data_size-rounded;
    some_chunks =
        (le-div_iff_mul-le {k = encrypted} {x = 1} some_bytes).1 (omega (arith, some_server));
    some_bytes = some_bytes;
    in_words = omega (arith, get_server_read_data_size-rounded, rounded_below);
    in_numbers = omega (arith, in_numbers, fewer);
  }
