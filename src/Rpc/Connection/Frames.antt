-- ===== src/Rpc/Connection/Frames.antt =====
-- A record that one side has written is read on the other side as it was sent.
use privmx_endpoint.Common.{
  lt→ltb, two32, u32, ok, length, length-append, length-take, Bytes, bytes_eq_refl, ℕ, ◌+◌, ◌%◌,
  ◌<◌, ◌≡◌, refl, ap, true, ◌++◌, arith, substr-prefix, substr_from-prefix,
}
use privmx_endpoint.Rpc.Ciphers.{Ciphers, IsSound}
use privmx_endpoint.Rpc.Connection.{
  Connection, RwState, initialized, be32, header_body, header_tag, frame_seed, frame_mac,
  sealed_length, sealed_header, next_record,
}
use privmx_endpoint.Rpc.Connection.Reading.{
  Header, parse_header, split_header, open_header, open_packet,
}

pub length-header_body : (t n : ℕ) → length (header_body t n) ≡ 8
unfolding header_body be32
length-header_body t n = refl

pub parse_header-header_body : (t n : ℕ) → n < two32 → parse_header (header_body t n) ≡ ok (t, n)
unfolding parse_header header_body be32 u32
parse_header-header_body t n h = ap (λ m. ok (t, m)) (omega (arith, h))

module _ (c : Ciphers) (v : IsSound c) where
  length-header_tag : (key seed : Bytes) → length (header_tag c key seed) ≡ 8
  unfolding header_tag
  length-header_tag key seed =
      omega (
        arith,
        length-take 8 (c.crypto.hmac_sha256 key seed),
        v.crypto_IsSound.hmac_length key seed,
      )

  pub length-frame_mac :
      (key seed iv ciphertext : Bytes) → length (frame_mac c key seed iv ciphertext) ≡ 16
  unfolding frame_mac
  length-frame_mac key seed iv ciphertext = omega (
    arith,
    length-take 16 (c.crypto.hmac_sha256 key (seed ++ (iv ++ ciphertext))),
    v.crypto_IsSound.hmac_length key (seed ++ (iv ++ ciphertext)),
  )

  module _ (s : RwState) (body : Bytes) (whole : length body ≡ 8) where
    abbrev pub tagged : Bytes
    tagged = body ++ header_tag c s.mac_key (frame_seed s body)

    pub length-tagged : length tagged ≡ 16
    length-tagged = omega (
      arith,
      whole,
      length-append body (header_tag c s.mac_key (frame_seed s body)),
      length-header_tag s.mac_key (frame_seed s body),
    )

    pub length-sealed_header : length (sealed_header c s body) ≡ 16
    unfolding sealed_header
    length-sealed_header = v.block_length tagged s.key length-tagged

  -- The header in clear, and what the reader keeps of it.
  pub open_header-sealed_header :
      (k : Connection) (body : Bytes)
      → length body ≡ 8
      → initialized k.read_state ≡ true
      → open_header c (sealed_header c k.read_state body) k ≡ (
        record k { read_state = next_record k.read_state },
        ok (record {
          body = body;
          seed = frame_seed k.read_state body;
          iv = sealed_header c k.read_state body;
        }),
      )
  unfolding open_header sealed_header split_header
  open_header-sealed_header k body whole i =
      let s = k.read_state in
      let tag = header_tag c s.mac_key (frame_seed s body) in
      rw
        (
          i,
          v.decrypts_block (tagged s body whole) s.key (length-tagged s body whole),
          substr_from-prefix body tag 8 whole,
          substr-prefix body tag 8 whole,
          bytes_eq_refl tag,
        )
        refl

  pub open_packet-sealed :
      (s : RwState) (k : Connection) (h : Header) (packet : Bytes)
      → k.read_state ≡ next_record s
      → open_packet c k h
          (c.crypto.aes_encrypt packet s.key h.iv)
          (frame_mac c s.mac_key h.seed h.iv (c.crypto.aes_encrypt packet s.key h.iv))
        ≡ ok packet
  unfolding open_packet next_record
  open_packet-sealed s k h packet e =
      rw
        (
          e,
          bytes_eq_refl
              (frame_mac c s.mac_key h.seed h.iv (c.crypto.aes_encrypt packet s.key h.iv)),
          v.crypto_IsSound.decrypts packet s.key h.iv,
        )
        refl

  -- The sealed length is that of the ciphertext.
  pub sealed_length-ciphertext :
      (packet key iv : Bytes)
      → 0 < length packet
      → length packet + 16 < two32
      → sealed_length packet ≡ length (c.crypto.aes_encrypt packet key iv)
  unfolding sealed_length u32
  sealed_length-ciphertext packet key iv some_bytes fits =
      rw (lt→ltb 0 (length packet % two32) (omega (arith, some_bytes, fits)))
        (omega (arith, fits, v.crypto_IsSound.cipher_length packet key iv))
