-- ===== src/Rpc/Connection.antt =====
-- rpc/base/src/tls/ConnectionBase.cpp: the records of the connection, sealed once keys are agreed on.
pub mod Reading
pub mod Process
pub mod Frames
pub mod Contents
pub mod Delivery
pub mod Actions
pub mod Transfer
pub mod Keys
pub mod Replay
use privmx_endpoint.Common.{
  ltb, if◌then◌else◌, u32, u64, Result, ok, err, length, take, drop, Bytes, ℕ, ◌+◌, ◌*◌, ◌/◌, ◌%◌,
  ◌^◌, Bool, true, false, not, ◌&&◌, [], ◌∷◌, ◌++◌, write_state_is_not_initialized,
}
use privmx_endpoint.Rpc.Ciphers.{Ciphers, prf_tls12}

-- RWState: the keys of one direction and the number of the next record.
pub record RwState : Type 0 where
  pub key : Bytes
  pub mac_key : Bytes
  pub sequence_number : ℕ

abbrev pub fresh_state : Bytes → Bytes → RwState
fresh_state key mac_key = record { key = key; mac_key = mac_key; sequence_number = 0 }

abbrev is_empty : Bytes → Bool
is_empty [] = true
is_empty (x ∷ xs) = false

unfoldable pub initialized : RwState → Bool
initialized s = not (is_empty s.key) && not (is_empty s.mac_key)

-- `output` is what has been written to the stream; the version is the constant 1.
pub record Connection : Type 0 where
  pub output : Bytes
  pub write_state : RwState
  pub read_state : RwState
  pub next_write_state : RwState
  pub next_read_state : RwState
  pub client_random : Bytes
  pub server_random : Bytes
  pub master_secret : Bytes

abbrev pub change_cipher_spec_type : ℕ
change_cipher_spec_type = 20

abbrev pub alert_type : ℕ
alert_type = 21

abbrev pub handshake_type : ℕ
handshake_type = 22

abbrev pub application_data_type : ℕ
application_data_type = 23

-- A word of 32 and one of 64 bits, the highest byte first.
unfoldable pub be32 : ℕ → Bytes
be32 n = (u32 n / 2 ^ 24) ∷ (u32 n / 2 ^ 16 % 256) ∷ (u32 n / 2 ^ 8 % 256) ∷ (u32 n % 256) ∷ []

unfoldable pub be64 : ℕ → Bytes
unfolding be32
be64 n = be32 (n / 2 ^ 32) ++ be32 n

-- The length of the ciphertext: the next multiple of 16 behind the packet's, in 32 bits.
unfoldable pub sealed_length : Bytes → ℕ
sealed_length packet =
    if ltb 0 (u32 (length packet)) then u32 (u32 (length packet) + 16) / 16 * 16 else 0

unfoldable pub header_body : ℕ → ℕ → Bytes
header_body content_type n = 1 ∷ content_type ∷ (be32 n ++ 0 ∷ 0 ∷ [])

-- What the header's tag is computed of.
unfoldable pub frame_seed : RwState → Bytes → Bytes
frame_seed s body = be64 s.sequence_number ++ body

unfoldable pub next_record : RwState → RwState
next_record s = record s { sequence_number = u64 (s.sequence_number + 1) }

abbrev key_expansion : Bytes
key_expansion = 107 ∷ 101 ∷ 121 ∷ 32 ∷ 101 ∷ 120 ∷ 112 ∷ 97 ∷ 110 ∷ 115 ∷ 105 ∷ 111 ∷ 110 ∷ []

abbrev master_secret_label : Bytes
master_secret_label = 109 ∷ 97 ∷ 115 ∷ 116 ∷ 101 ∷ 114 ∷ 32 ∷ 115 ∷ 101 ∷ 99 ∷ 114 ∷ 101 ∷ 116 ∷ []

module _ (c : Ciphers) where
  unfoldable pub header_tag : Bytes → Bytes → Bytes
  header_tag mac_key seed = take 8 (c.crypto.hmac_sha256 mac_key seed)

  unfoldable pub frame_mac : Bytes → Bytes → Bytes → Bytes → Bytes
  frame_mac mac_key seed iv ciphertext =
      take 16 (c.crypto.hmac_sha256 mac_key (seed ++ (iv ++ ciphertext)))

  -- The header under the cipher, which is the vector of the packet's encryption.
  unfoldable pub sealed_header : RwState → Bytes → Bytes
  sealed_header s body = c.aes_ecb_encrypt (body ++ header_tag s.mac_key (frame_seed s body)) s.key

  -- The ciphertext and its tag; nothing where the packet is empty.
  unfoldable pub sealed_data : RwState → Bytes → Bytes → Bytes
  sealed_data s body packet =
      let iv = sealed_header s body in
      let ciphertext = c.crypto.aes_encrypt packet s.key iv in
      if ltb 0 (sealed_length packet)
      then ciphertext ++ frame_mac s.mac_key (frame_seed s body) iv ciphertext
      else []

  unfoldable pub sealed_frame : RwState → ℕ → Bytes → Bytes
  sealed_frame s content_type packet =
      let body = header_body content_type (sealed_length packet) in
      sealed_header s body ++ sealed_data s body packet

  unfoldable pub plain_frame : ℕ → Bytes → Bytes
  plain_frame content_type packet = header_body content_type (length packet) ++ packet

  unfoldable pub send : Bytes → ℕ → Bool → Connection → Connection
  send packet content_type force_plaintext k =
      if not force_plaintext && initialized k.write_state
      then record k {
        output = k.output ++ sealed_frame k.write_state content_type packet;
        write_state = next_record k.write_state;
      }
      else record k { output = k.output ++ plain_frame content_type packet }

  -- The writer switches to its new keys behind the last record under the old ones.
  unfoldable pub change_cipher_spec : Connection → Connection × Result (Unit {0})
  change_cipher_spec k =
      if not (initialized k.next_write_state)
      then (k, err write_state_is_not_initialized)
      else let sent = send [] change_cipher_spec_type false k in
        (
          record sent { write_state = sent.next_write_state; next_write_state = fresh_state [] [] },
          ok tt,
        )

  -- The states of the client and of the server.
  unfoldable pub fresh_rw_states : Bytes → Bytes → Bytes → RwState × RwState
  fresh_rw_states master_secret client_random server_random =
      let key_block =
        prf_tls12 c.crypto master_secret (key_expansion ++ (server_random ++ client_random)) 128 in
      (
        fresh_state (take 32 (drop 64 key_block)) (take 32 key_block),
        fresh_state (take 32 (drop 96 key_block)) (take 32 (drop 32 key_block)),
      )

  -- The client reads what the server writes.
  unfoldable pub next_states : Bytes → Connection → Connection
  next_states master_secret k =
      let (client, server) = fresh_rw_states master_secret k.client_random k.server_random in
      record k { next_read_state = server; next_write_state = client }

  unfoldable pub set_pre_master_secret : Bytes → Connection → Connection
  unfolding next_states
  set_pre_master_secret pre_master_secret k =
      let master_secret =
        prf_tls12 c.crypto pre_master_secret
          (master_secret_label ++ (k.client_random ++ k.server_random)) 48 in
      next_states master_secret (record k { master_secret = master_secret })

  unfoldable pub restore_state : Bytes → Bytes → Bytes → Connection → Connection × Result (Unit {0})
  unfolding next_states change_cipher_spec
  restore_state ticket_id master_secret client_random k = change_cipher_spec (
      next_states master_secret (record k {
        client_random = client_random;
        server_random = ticket_id;
        master_secret = master_secret;
      }))
