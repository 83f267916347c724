-- ===== src/Rpc/Connection/Reading.antt =====
-- rpc/base/src/tls/ConnectionBase.cpp, in ConnectionBase::process: the parts of a record are
-- checked and opened.
use privmx_endpoint.Common.{
  ◌==◌, if◌then◌else◌, Result, ok, err, ◌>>=◌, ◌>>◌, guard, undefined_behaviour, Bytes, bytes_eq,
  substr, substr_from, ℕ, ◌+◌, ◌*◌, ◌^◌, Bool, [], ◌∷◌, unsupported_frame_version,
  frame_header_tags_are_not_equal, frame_macs_are_not_equal, invalid_next_read_state,
}
use privmx_endpoint.Rpc.Ciphers.{Ciphers}
use privmx_endpoint.Rpc.Connection.{
  Connection, initialized, fresh_state, next_record, frame_seed, header_tag, frame_mac,
}

-- The reader over an input stream, a parameter.
pub record Input (S : Type 0) : Type 0 where
  -- At most this many bytes, fewer where the stream ends.
  pub read_raw : ℕ → S → S × Bytes
  -- Whether a read has met the end.
  pub eof : S → Bool

-- The decoder of packets, the handler of application data and the virtual handler of handshakes, with
-- a world `W` of their own.
pub record Handlers (W V : Type 0) : Type 0 where
  pub decode : Bytes → Result V
  pub application_handler : V → W → W × Result (Unit {0})
  pub process_handshake_packet : V → Connection × W → (Connection × W) × Result (Unit {0})

pub record Frame : Type 0 where
  pub content_type : ℕ
  pub content : Bytes

-- The fields of a header behind its version.
unfoldable pub parse_fields : Bytes → Result (ℕ × ℕ)
parse_fields (t ∷ a ∷ b ∷ c ∷ d ∷ rest) = ok (t, a * 2 ^ 24 + b * 2 ^ 16 + c * 2 ^ 8 + d)
parse_fields other = err undefined_behaviour

unfoldable pub parse_header : Bytes → Result (ℕ × ℕ)
unfolding parse_fields
parse_header [] = err undefined_behaviour
parse_header (version ∷ fields) =
    if version == 1 then parse_fields fields else err unsupported_frame_version

-- A header in clear, with what the tag of its packet is computed of and opened by.
pub record Header : Type 0 where
  pub body : Bytes
  pub seed : Bytes
  pub iv : Bytes

-- `tag` is what stands behind the header's eight bytes.
unfoldable pub split_header : Bytes → Result (Bytes × Bytes)
split_header opened = substr_from opened 8 >>= λ tag. substr opened 0 8 >>= λ body. ok (body, tag)

-- The reader switches to its new keys.
unfoldable pub switch_read_state : Connection → Connection × Result (Unit {0})
switch_read_state k =
    if initialized k.next_read_state
    then (record k { read_state = k.next_read_state; next_read_state = fresh_state [] [] }, ok tt)
    else (k, err invalid_next_read_state)

module _ (c : Ciphers) where
  -- The record is counted before its tag is looked at.
  unfoldable pub open_header : Bytes → Connection → Connection × Result Header
  open_header raw k =
      if initialized k.read_state
      then elim (c.aes_ecb_decrypt raw k.read_state.key >>= split_header) [
        | err e ↦ (k, err e)
        | ok (body, tag) ↦
            let seed = frame_seed k.read_state body in
            (
              record k { read_state = next_record k.read_state },
              if bytes_eq tag (header_tag c k.read_state.mac_key seed)
                  then ok (record { body = body; seed = seed; iv = raw })
                  else err frame_header_tags_are_not_equal,
            )
      ]
      else (k, ok (record { body = raw; seed = []; iv = [] }))

  unfoldable pub open_packet : Connection → Header → Bytes → Bytes → Result Bytes
  open_packet k h ciphertext mac =
      guard (bytes_eq mac (frame_mac c k.read_state.mac_key h.seed h.iv ciphertext))
        frame_macs_are_not_equal
      >> c.crypto.aes_decrypt ciphertext k.read_state.key h.iv
