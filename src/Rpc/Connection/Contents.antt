-- ===== src/Rpc/Connection/Contents.antt =====
-- The packet of a record is read as it was sent, in clear or sealed.
use privmx_endpoint.Common.{
  lt→ltb, two32, u32, Result, ok, length, Bytes, ℕ, ◌+◌, ◌<◌, ◌≡◌, refl, sym, ap, ◌∙◌, true, false,
  [], ◌∷◌, ◌++◌, append_assoc, arith,
}
use privmx_endpoint.Common.State.{>>=-ok, lift}
use privmx_endpoint.Rpc.Ciphers.{Ciphers, IsSound}
use privmx_endpoint.Rpc.Connection.{
  RwState, initialized, frame_seed, frame_mac, sealed_length, sealed_header, sealed_data,
  next_record,
}
use privmx_endpoint.Rpc.Connection.Reading.{Input, Handlers, Header, open_packet}
use privmx_endpoint.Rpc.Connection.Process.{Session, read_raw, open_content, read_content}
use privmx_endpoint.Rpc.Connection.Frames.{
  open_packet-sealed, sealed_length-ciphertext, length-frame_mac,
}

-- The reader takes its bytes from the front of what the stream holds, and meets the end only where
-- there are too few.
pub record Reads {S : Type 0} (input : Input S) (rest : S → Bytes) : Type 0 where
  pub reads :
      (s : S) (xs ys : Bytes)
      → rest s ≡ xs ++ ys
      → input.eof s ≡ false
      → (s' : S) × (input.read_raw (length xs) s ≡ (s', xs))
        × (rest s' ≡ ys)
        × (input.eof s' ≡ false)
  pub ends :
      (s : S) (n : ℕ) → rest s ≡ [] → (s' : S) × (input.read_raw n s ≡ (s', [])) × (rest s' ≡ [])

module _ {S W V : Type 0} (c : Ciphers) (v : IsSound c) (input : Input S) (rest : S → Bytes)
    (law : Reads input rest) (handlers : Handlers W V) where
  -- The stream stands at `more`, and has not ended.
  abbrev pub StandsAt : S → Bytes → Type 0
  StandsAt s more = (rest s ≡ more) × (input.eof s ≡ false)

  pub read_raw-reads :
      (s : Session S W) (xs ys : Bytes)
      → StandsAt s.stream (xs ++ ys)
      → (s' : S) × (read_raw c input handlers (length xs) s ≡ (record s { stream = s' }, ok xs))
        × StandsAt s' ys
  unfolding read_raw
  read_raw-reads s xs ys (e, more) =
      let (s', r, e', more') = law.reads s.stream xs ys e more in
      (s', ap (λ (p : S × Bytes). (record s { stream = p.0 }, ok p.1)) r, (e', more'))

  -- A packet in clear.
  pub read_content_plain :
      (s : Session S W) (h : Header) (packet more : Bytes)
      → initialized s.connection.read_state ≡ false
      → StandsAt s.stream (packet ++ more)
      → (s' : S) × (read_content c input handlers h (length packet) s
          ≡ (record s { stream = s' }, ok packet))
        × StandsAt s' more
  unfolding read_content open_content
  read_content_plain s h [] more i at = (s.stream, refl, at)
  read_content_plain s h (x ∷ xs) more i at =
      let (s', r, at') = read_raw-reads s (x ∷ xs) more at in
      (
        s',
        rw (lt→ltb 0 (length (x ∷ xs)) (omega arith)) (
            >>=-ok (read_raw c input handlers (length (x ∷ xs))) (open_content c input handlers h) s
              r
            ∙ rw i refl),
        at',
      )

  -- A sealed packet, whose header has been opened.
  module _ (s : Session S W) (rs : RwState) (body packet more : Bytes)
      (same : s.connection.read_state ≡ next_record rs) (sealed : initialized rs ≡ true)
      (fits : length packet + 16 < two32) where
    abbrev opened : Header
    opened = record { body = body; seed = frame_seed rs body; iv = sealed_header c rs body }

    abbrev ciphertext : Bytes
    ciphertext = c.crypto.aes_encrypt packet rs.key opened.iv

    abbrev mac : Bytes
    mac = frame_mac c rs.mac_key opened.seed opened.iv ciphertext

    still_sealed : initialized s.connection.read_state ≡ true
    unfolding initialized next_record
    still_sealed = ap initialized same ∙ sealed

    open_content_sealed :
        StandsAt s.stream (mac ++ more)
        → (s' : S) × (open_content c input handlers opened ciphertext s
            ≡ (record s { stream = s' }, ok packet))
          × StandsAt s' more
    unfolding open_content
    open_content_sealed at =
        let (s', r, at') = read_raw-reads s mac more at in
        (
          s',
          rw still_sealed (
              >>=-ok (read_raw c input handlers 16)
                (λ m. lift (open_packet c s.connection opened ciphertext m)) s
                (ap (λ n. read_raw c input handlers n s)
                    (sym (length-frame_mac c v rs.mac_key opened.seed opened.iv ciphertext))
                  ∙ r)
              ∙ ap (λ (p : Result Bytes). (record s { stream = s' }, p))
                  (open_packet-sealed c v rs s.connection opened packet same)),
          at',
        )

  some_ciphertext :
      (packet key iv : Bytes)
      → 0 < length packet
      → length packet + 16 < two32
      → 0 < sealed_length packet
  some_ciphertext packet key iv some_bytes fits = omega (
    arith,
    sealed_length-ciphertext c v packet key iv some_bytes fits,
    v.crypto_IsSound.cipher_length packet key iv,
  )

  sealed_data-split :
      (rs : RwState) (body packet : Bytes)
      → 0 < sealed_length packet
      → sealed_data c rs body packet
        ≡ c.crypto.aes_encrypt packet rs.key (sealed_header c rs body)
          ++ frame_mac c rs.mac_key
              (frame_seed rs body)
              (sealed_header c rs body)
              (c.crypto.aes_encrypt packet rs.key (sealed_header c rs body))
  unfolding sealed_data
  sealed_data-split rs body packet h = rw (lt→ltb 0 (sealed_length packet) h) refl

  pub read_content_sealed :
      (s : Session S W) (rs : RwState) (body packet more : Bytes)
      → s.connection.read_state ≡ next_record rs
      → initialized rs ≡ true
      → length packet + 16 < two32
      → StandsAt s.stream (sealed_data c rs body packet ++ more)
      → (s' : S) × (read_content c input handlers
            (record { body = body; seed = frame_seed rs body; iv = sealed_header c rs body })
            (sealed_length packet)
            s
          ≡ (record s { stream = s' }, ok packet))
        × StandsAt s' more
  unfolding read_content sealed_length sealed_data u32
  read_content_sealed s rs body [] more same sealed fits at = (s.stream, refl, at)
  read_content_sealed s rs body (x ∷ xs) more same sealed fits (e, begun) =
      let p : Bytes = x ∷ xs in
      let iv = sealed_header c rs body in
      let ct = c.crypto.aes_encrypt p rs.key iv in
      let m = frame_mac c rs.mac_key (frame_seed rs body) iv ct in
      let some_bytes = some_ciphertext p rs.key iv (omega arith) fits in
      let (s1, r, at1) = read_raw-reads s ct (m ++ more) (
        e ∙ ap (λ d. d ++ more) (sealed_data-split rs body p some_bytes) ∙ append_assoc ct m more,
        begun,
      ) in
      let (s2, r2, at2) =
        open_content_sealed (record s { stream = s1 }) rs body p more same sealed fits at1 in
      (
        s2,
        rw (lt→ltb 0 (sealed_length p) some_bytes) (
            >>=-ok (read_raw c input handlers (sealed_length p))
              (open_content c input handlers
                (record { body = body; seed = frame_seed rs body; iv = iv }))
              s
              (ap (λ n. read_raw c input handlers n s)
                  (sealed_length-ciphertext c v p rs.key iv (omega arith) fits)
                ∙ r)
            ∙ r2),
        at2,
      )
