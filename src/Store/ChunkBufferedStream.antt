-- ===== src/Store/ChunkBufferedStream.antt =====
-- endpoint/store/src/ChunkBufferedStream.cpp and its header: bytes written in pieces of any length and
-- taken out in chunks of one size.
use privmx_endpoint.Common.{
  ltb, ◌==◌, if◌then◌else◌, u64, sub64, Result, ok, err, ◌>>=◌, data_bigger_than_declared, length,
  Bytes, substr, substr_from, ℕ, ◌+◌, ◌*◌, ◌/◌, min, Bool, true, false, ◌&&◌, Option, none, some,
  [], ◌++◌,
}

pub record Stream : Type 0 where
  pub chunk_size : ℕ
  pub buf : Bytes
  pub size_control : Bool
  pub max_total_data_size : ℕ
  pub total_data_size : ℕ
  pub buf_size : ℕ

-- The constructor; with a maximal length the stream checks it.
unfoldable pub create : ℕ → Option ℕ → Stream
create chunk_size max_length = record {
  chunk_size = chunk_size;
  buf = [];
  size_control = elim max_length [ none ↦ false | some n ↦ true ];
  max_total_data_size = elim max_length [ none ↦ 0 | some n ↦ n ];
  total_data_size = 0;
  buf_size = 0;
}

unfoldable pub is_empty : Stream → Bool
is_empty s = s.buf_size == 0

unfoldable pub has_full_chunk : Stream → Bool
has_full_chunk s = ltb s.chunk_size s.buf_size

unfoldable pub get_number_of_full_chunks : Stream → ℕ
get_number_of_full_chunks s = s.buf_size / s.chunk_size

unfoldable pub is_fully_filled : Stream → Bool
is_fully_filled s = if s.size_control then s.total_data_size == s.max_total_data_size else false

unfoldable pub read_chunk : Stream → Result (Stream × Bytes)
read_chunk s = do
  let n = min s.buf_size s.chunk_size
  chunk ← substr s.buf 0 s.chunk_size
  rest ← substr_from s.buf n
  ok (record s { buf = rest; buf_size = sub64 s.buf_size n }, chunk)

unfoldable pub write : Stream → Bytes → Result Stream
write s d =
    if s.size_control && ltb s.max_total_data_size (u64 (s.total_data_size + length d))
    then err data_bigger_than_declared
    else ok (record s {
      buf = s.buf ++ d;
      buf_size = u64 (s.buf_size + length d);
      total_data_size = u64 (s.total_data_size + length d);
    })

unfoldable pub get_full_chunk : Stream → ℕ → Result Bytes
get_full_chunk s i = substr s.buf (u64 (s.chunk_size * i)) s.chunk_size

unfoldable pub free_full_chunks : Stream → Result Stream
unfolding get_number_of_full_chunks
free_full_chunks s = do
  let full = u64 (s.chunk_size * get_number_of_full_chunks s)
  rest ← substr_from s.buf full
  ok (record s { buf = rest; buf_size = sub64 s.buf_size full })
