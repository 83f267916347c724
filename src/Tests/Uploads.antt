-- ===== src/Tests/Uploads.antt =====
-- An upload of five bytes in chunks of two, in requests of a hundred bytes.
use privmx_endpoint.Common.State.{◌>>◌}
use privmx_endpoint.Common.{
  two64, ok, length, replicate, Bytes, ℕ, ◌<◌, ◌≡◌, refl, List, [], ◌∷◌, ◌++◌, arith,
}
use privmx_endpoint.Store.Crypto.{plain_crypto, plain_crypto-IsSound}
use privmx_endpoint.Store.ChunkEncryptor.{get_encrypted_file_size}
use privmx_endpoint.Store.ChunkEncryptor.Sizes.{stored_bytes, stored-length}
use privmx_endpoint.Store.ChunkStreamer.{
  Streamer, RequestApi, start, set_request_data, get_file_size, finalize, sent_info,
}
use privmx_endpoint.Store.ChunkStreamer.Drain.{Accepts}
use privmx_endpoint.Store.ChunkStreamer.Upload.{sealed}
use privmx_endpoint.Store.ChunkStreamer.Complete.{IsCommitted}
use privmx_endpoint.Store.ChunkStreamer.Sizes.{get_file_size-encrypted}
use privmx_endpoint.Store.ChunkStreamer.Whole.{send_chunks}
use privmx_endpoint.Store.ChunkStreamer.Stored.{upload-IsCommitted}

abbrev key : Bytes
key = 9 ∷ 8 ∷ []

abbrev ivs : ℕ → Bytes
ivs n = replicate 16 n

abbrev api : RequestApi
api = record {
  create_request = λ d. ok (82 ∷ []);
  send_chunk = λ m. ok tt;
  commit_file = λ m. ok tt;
}

api-Accepts : Accepts api
api-Accepts = record { accepts_chunk = λ m. refl; accepts_commit = λ m. refl }

abbrev chunks : List Bytes
chunks = (1 ∷ 2 ∷ []) ∷ (3 ∷ 4 ∷ []) ∷ []

small : length (stored_bytes (sealed plain_crypto ivs key 2 (chunks ++ (5 ∷ []) ∷ []))) < two64
small = omega (
  arith,
  stored-length plain_crypto plain_crypto-IsSound (record { key = key; chunk_size = 2 }) ivs 0
      (chunks ++ (5 ∷ []) ∷ []) (λ n. refl),
)

upload-IsCommitted_example :
    (t : Streamer) × ((send_chunks plain_crypto api ivs chunks
          >> finalize plain_crypto api ivs (5 ∷ []))
        (set_request_data (start 2 5 100) (82 ∷ []) key 0)
      ≡ (t, ok (sent_info plain_crypto t)))
    × IsCommitted plain_crypto ivs key 2 100 api api-Accepts
        (omega arith)
        (chunks ++ (5 ∷ []) ∷ [])
        (82 ∷ [])
        0
        t
upload-IsCommitted_example =
    upload-IsCommitted plain_crypto ivs key 2 100 api api-Accepts (omega arith) 5 (omega arith)
      (82 ∷ []) 0 chunks (5 ∷ []) (refl, (refl, tt)) refl (omega arith) (omega arith) small

get_file_size-encrypted_example :
    (get_file_size (start 2 5 100)).size
    ≡ get_encrypted_file_size (record { key = key; chunk_size = 2 }) 5
unfolding start
get_file_size-encrypted_example = get_file_size-encrypted (start 2 5 100) key
