-- ===== src/Store/RandomWrite/Rounds.antt =====
-- The places of the pieces of a text in the chunks of a file, and the chunks that they make.
use native.Mathlib.Nat.{div-add-mod, mod-lt}
use privmx_endpoint.Common.{
  ◌==◌, if◌then◌else◌, ==_iff, ==_refl, two32, two64, length, take, drop, length-take, length-drop,
  take-append-drop, take_all, Bytes, ℕ, ◌+◌, ◌-◌, ◌*◌, ◌/◌, ◌%◌, ◌≤◌, ◌<◌, min, ◌≡◌, sym, ap, ◌∙◌,
  ◌⊎◌, inl, inr, Bool, false, [], ◌++◌, arith, ℕ_discrete, slice, length-slice, ==-false,
}
use privmx_endpoint.Store.ChunkDataProvider.Coherence.{mul-le}
use privmx_endpoint.Store.ChunkDataProvider.Update.{written}
use privmx_endpoint.Store.ChunkReader.Refinement.{StoredFile, plain_chunk}
use privmx_endpoint.Store.RandomWrite.Pieces.{written-last_piece, written-piece}

-- The chunks from `start` to `stop` hold the text from its place on, up to its end.
pub record Spans (f : StoredFile) (n offset start stop : ℕ) (to_send : Bytes) : Type 0 where
  pub some_width : 0 < f.encryptor.chunk_size
  pub in_words : f.encryptor.chunk_size < two64
  pub inside : offset ≤ length f.plain
  pub begins : start ≡ offset / f.encryptor.chunk_size
  pub ordered : start ≤ stop
  pub reaches : f.encryptor.chunk_size * stop ≤ offset + length to_send
  pub covers : offset + length to_send ≤ f.encryptor.chunk_size * stop + f.encryptor.chunk_size
  pub few : stop < two32
  pub asked : f.encrypted_size * stop ≤ n

module _ (f : StoredFile) (n offset start stop : ℕ) (to_send : Bytes) (truncate : Bool)
    (v : Spans f n offset start stop to_send) where
  abbrev pub width : ℕ
  width = f.encryptor.chunk_size

  -- The loop is at chunk `i`, with `d` bytes of the text done.
  abbrev pub Reached : ℕ → ℕ → Type 0
  Reached i d = ((i ≡ start) × (d ≡ 0)) ⊎ ((start < i) × (offset + d ≡ width * i))

  -- The place of the piece in its chunk, and the piece.
  abbrev pub place : ℕ → ℕ → ℕ
  place i d = offset + d - width * i

  abbrev pub piece : ℕ → ℕ → Bytes
  piece i d = take (width - place i d) (drop d to_send)

  module _ (i d : ℕ) (reached : Reached i d) (last : i ≤ stop) where
    remainder : offset ≡ width * start + offset % width
    remainder = omega (arith, div-add-mod offset width, ap (λ k. width * k) v.begins)

    start_of : width * i ≤ offset + d
    start_of = elim reached [
      | inl e ↦ omega (arith, remainder, ap (λ k. width * k) e.0, e.1)
      | inr e ↦ omega (arith, e.1)
    ]

    pub place_inside : place i d < width
    place_inside = elim reached [
      | inl e ↦ omega (arith, remainder, ap (λ k. width * k) e.0, e.1, mod-lt offset v.some_width)
      | inr e ↦ omega (arith, e.1, v.some_width)
    ]

    pub done_inside : d ≤ length to_send
    done_inside = elim reached [
      | inl e ↦ omega (arith, e.1)
      | inr e ↦ omega (arith, e.1, v.reaches, mul-le width i stop last)
    ]

    pub chunk_offset_eq : (if i == start then offset % width else 0) ≡ place i d
    chunk_offset_eq = elim reached [
      | inl e ↦ rw (e.0, ==_refl start, e.1) (omega (arith, remainder))
      | inr e ↦ rw (==-false i start (omega (arith, e.0))) (omega (arith, e.1))
    ]

    pub room_eq : (if i == start then width - offset % width else width) ≡ width - place i d
    room_eq = elim reached [
      | inl e ↦ rw (e.0, ==_refl start, e.1) (omega (arith, remainder))
      | inr e ↦ rw (==-false i start (omega (arith, e.0))) (omega (arith, e.1))
    ]

    pub length-piece : length (piece i d) ≡ min (width - place i d) (length to_send - d)
    length-piece =
        omega (arith, length-take (width - place i d) (drop d to_send), length-drop d to_send)

    pub place_in_chunk : place i d ≤ length (plain_chunk f i)
    place_in_chunk = elim reached [
      | inl e ↦
          omega
            (arith, place_inside, start_of, e.1, v.inside, length-slice (width * i) width f.plain)
      | inr e ↦ omega (arith, e.1)
    ]

    window_first : (take d to_send ≡ []) ⊎ (offset + length (take d to_send) ≡ width * i)
    window_first = elim reached [
      | inl e ↦ inl (ap (λ k. take k to_send) e.1)
      | inr e ↦ inr (omega (arith, e.1, done_inside, length-take d to_send))
    ]

    length-done : length (take d to_send) ≡ d
    length-done = omega (arith, done_inside, length-take d to_send)

    front : width * i ≤ offset + length (take d to_send)
    front = omega (arith, start_of, length-done)

    place_eq : offset + length (take d to_send) - width * i ≡ place i d
    place_eq = omega (arith, length-done)

    last_whole : i ≡ stop → take d to_send ++ piece i d ≡ to_send
    last_whole e =
        ap (λ l. take d to_send ++ l)
          (take_all (width - place i d) (drop d to_send) (
            omega (
              arith,
              length-drop d to_send,
              place_inside,
              start_of,
              v.covers,
              ap (λ k. width * k) e,
            )))
        ∙ take-append-drop d to_send

    whole : take d to_send ++ (piece i d ++ drop (width - place i d) (drop d to_send)) ≡ to_send
    whole =
        ap (λ l. take d to_send ++ l) (take-append-drop (width - place i d) (drop d to_send))
        ∙ take-append-drop d to_send

    full : i < stop → length (piece i d) ≡ width - place i d
    full h = omega (
      arith,
      length-piece,
      start_of,
      done_inside,
      v.reaches,
      mul-le width (i + 1) stop (omega arith),
    )

    -- Chunk `i` of the written plaintext.
    pub chunk_content :
        plain_chunk (record f { plain = written f.plain offset to_send truncate }) i
        ≡ written (plain_chunk f i) (place i d) (piece i d) (if i == stop then truncate else false)
    chunk_content = elim (ℕ_discrete i stop) [
      | yes e ↦ rw ((==_iff i stop).1 e) (
          ap (λ l. slice (width * i) width (written f.plain offset l truncate)) (sym (last_whole e))
          ∙ written-last_piece (width * i) width offset f.plain (take d to_send) (piece i d)
              v.inside window_first front truncate
              (omega (arith, length-done, length-piece, start_of, place_inside))
          ∙ ap (λ k. written (plain_chunk f i) k (piece i d) truncate) place_eq)
      | no e ↦ rw (==-false i stop e) (
          ap (λ l. slice (width * i) width (written f.plain offset l truncate)) (sym whole)
          ∙ written-piece (width * i) width offset f.plain (take d to_send) (piece i d) v.inside
              window_first front (drop (width - place i d) (drop d to_send)) truncate
              (omega (arith, length-done, full (omega arith), start_of, place_inside))
          ∙ ap (λ k. written (plain_chunk f i) k (piece i d) false) place_eq)
    ]

    -- The next chunk.
    pub next-Reached : i < stop → Reached (i + 1) (d + length (piece i d))
    next-Reached h = inr (start_before, omega (arith, full h, place_inside, start_of))
      where
        start_before : start < i + 1
        start_before = elim reached [ inl e ↦ omega (arith, e.0) | inr e ↦ omega (arith, e.0) ]
