-- ===== src/Store/FileHandler/Filling.antt =====
-- The text that a write sends, with the zeros in front of it, and the chunks that it meets.
use native.Mathlib.Nat.{mul-div-le, lt-mul-div-succ, le-div_iff_mul-le}
use privmx_endpoint.Common.{
  ◌==◌, if◌then◌else◌, lt→ltb, le→ltb, two32, two64, sub64, u64-eq_of_lt, sub64-eq, length,
  replicate, length-append, Bytes, ℕ, ◌+◌, ◌-◌, ◌*◌, ◌/◌, ◌≤◌, ◌<◌, ◌≡◌, ap, ◌∙◌, Bool, arith,
  dec_lt,
}
use privmx_endpoint.Store.ChunkReader.{file_pos_to_file_chunk_index}
use privmx_endpoint.Store.ChunkReader.Refinement.{StoredFile}
use privmx_endpoint.Store.RandomWrite.{FileHandler, Remote, filled}
use privmx_endpoint.Store.RandomWrite.Patching.{IsHeld}
use privmx_endpoint.Store.RandomWrite.Rounds.{Spans}
use privmx_endpoint.Store.RandomWrite.Chunks.{with_text}
use privmx_endpoint.Store.FileHandler.{stop_index}

-- The chunks that a write meets, as it computes them.
abbrev pub first_chunk : FileHandler → ℕ → Bytes → ℕ
first_chunk h offset text = (filled h offset text).0 / h.files.encryptor.chunk_size

abbrev pub last_chunk : FileHandler → ℕ → Bytes → ℕ
last_chunk h offset text =
    ((filled h offset text).0
      + length (filled h offset text).1
      - (if length text == 0 then 0 else 1))
    / h.files.encryptor.chunk_size

-- The plaintext with the text written in, behind zeros where it begins behind the end.
abbrev pub with_written : StoredFile → FileHandler → ℕ → Bytes → Bool → StoredFile
with_written f h offset text truncate =
    with_text f (filled h offset text).0 (filled h offset text).1 truncate

-- The sizes fit the machine words, and chunks are asked for as far as the write goes.
pub record HasRoom (f : StoredFile) (n : ℕ) (h : FileHandler) (offset : ℕ) (text : Bytes)
    : Type 0 where
  pub some_width : 0 < f.encryptor.chunk_size
  pub in_words : f.encryptor.chunk_size < two64
  pub old_fits : length f.plain < two64
  pub new_fits : (filled h offset text).0 + length (filled h offset text).1 < two64
  pub few : last_chunk h offset text < two32
  pub asked : f.encrypted_size * last_chunk h offset text ≤ n

filled-inside :
    (h : FileHandler) (offset : ℕ) (text : Bytes) → (filled h offset text).0 ≤ h.plain_file_size
unfolding filled
filled-inside h offset text = elim (dec_lt h.plain_file_size offset) [
  | yes behind ↦ rw (lt→ltb h.plain_file_size offset behind) (omega arith)
  | no inside ↦ rw (le→ltb h.plain_file_size offset (omega arith)) (omega arith)
]

filled-length :
    (h : FileHandler) (offset : ℕ) (text : Bytes) → length text ≤ length (filled h offset text).1
unfolding filled
filled-length h offset text = elim (dec_lt h.plain_file_size offset) [
  | yes behind ↦
      rw (lt→ltb h.plain_file_size offset behind)
        (omega (arith, length-append (replicate (offset - h.plain_file_size) 0) text))
  | no inside ↦ rw (le→ltb h.plain_file_size offset (omega arith)) (omega arith)
]

-- What the end of the text is lowered by is at most its length.
lowered : (n : ℕ) → ((if n == 0 then 0 else 1) ≤ n) × ((if n == 0 then 0 else 1) ≤ 1)
lowered n = (ground arith, ground arith)

div_mono : (a b n : ℕ) → 0 < n → a ≤ b → a / n ≤ b / n
div_mono a b n h k =
    (le-div_iff_mul-le {k = n} {x = a / n} {y = b} h).1 (omega (arith, mul-div-le a n, k))

module _ (r : Remote) (f : StoredFile) (n : ℕ) (h : FileHandler) (o : IsHeld r.server f n h)
    (offset : ℕ) (text : Bytes) (room : HasRoom f n h offset text) where
  abbrev width : ℕ
  width = f.encryptor.chunk_size

  abbrev lower : ℕ
  lower = if length text == 0 then 0 else 1

  abbrev end_of : ℕ
  end_of = (filled h offset text).0 + length (filled h offset text).1

  stop_eq : last_chunk h offset text ≡ (end_of - lower) / width
  stop_eq = ap (λ e. (end_of - lower) / e.chunk_size) o.same_encryptor

  start_eq : first_chunk h offset text ≡ (filled h offset text).0 / width
  start_eq = ap (λ e. (filled h offset text).0 / e.chunk_size) o.same_encryptor

  pub stop_index-last_chunk :
      stop_index h (filled h offset text).0 (filled h offset text).1 text ≡ last_chunk h offset text
  unfolding stop_index file_pos_to_file_chunk_index
  stop_index-last_chunk =
      ap (λ k. k / h.files.encryptor.chunk_size)
        (ap (λ k. sub64 k lower) (u64-eq_of_lt end_of room.new_fits)
          ∙ sub64-eq end_of lower
              (omega (arith, lowered (length text), filled-length h offset text)) room.new_fits)

  pub chunks-Spans :
      Spans f n
        (filled h offset text).0
        (first_chunk h offset text)
        (last_chunk h offset text)
        (filled h offset text).1
  chunks-Spans = record {
    some_width = room.some_width;
    in_words = room.in_words;
    inside = omega (arith, filled-inside h offset text, o.same_length);
    begins = start_eq;
    ordered = omega (
      arith,
      start_eq,
      stop_eq,
      div_mono (filled h offset text).0 (end_of - lower) width room.some_width
          (omega (arith, lowered (length text), filled-length h offset text)),
    );
    reaches = omega (arith, mul-div-le (end_of - lower) width, ap (λ k. width * k) stop_eq);
    covers = omega (
      arith,
      lt-mul-div-succ (end_of - lower) {b = width} room.some_width,
      ap (λ k. width * k) stop_eq,
      lowered (length text),
    );
    few = room.few;
    asked = room.asked;
  }
