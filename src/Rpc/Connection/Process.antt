-- ===== src/Rpc/Connection/Process.antt =====
-- rpc/base/src/tls/ConnectionBase.cpp, ConnectionBase::process: records are read from the input until
-- it ends, and handed on.
use privmx_endpoint.Common.{
  ltb, ◌==◌, if◌then◌else◌, Result, ok, err, Bytes, ℕ, zero, suc, Option, none, some, [], ◌∷◌,
  alert,
}
use privmx_endpoint.Common.State.{M, ◌>>=◌, pure, throw, lift}
use privmx_endpoint.Rpc.Ciphers.{Ciphers}
use privmx_endpoint.Rpc.Connection.{
  Connection, initialized, change_cipher_spec_type, alert_type, handshake_type,
  application_data_type,
}
use privmx_endpoint.Rpc.Connection.Reading.{
  Input, Handlers, Frame, Header, parse_header, open_header, open_packet, switch_read_state,
}

-- The stream that is read, the connection and the handlers' world.
pub record Session (S W : Type 0) : Type 0 where
  pub stream : S
  pub connection : Connection
  pub world : W

module _ {S W V : Type 0} (c : Ciphers) (input : Input S) (handlers : Handlers W V) where
  unfoldable pub read_raw : ℕ → M (Session S W) Bytes
  read_raw n s =
      let (stream, bytes) = input.read_raw n s.stream in (record s { stream = stream }, ok bytes)

  unfoldable pub on_connection {ℓ} : {A : Type ℓ} → M Connection A → M (Session S W) A
  on_connection m s =
      let (connection, result) = m s.connection in (record s { connection = connection }, result)

  unfoldable pub open_content : Header → Bytes → M (Session S W) Bytes
  open_content h ciphertext s =
      if initialized s.connection.read_state
      then (do mac ← read_raw 16; lift (open_packet c s.connection h ciphertext mac)) s
      else (s, ok ciphertext)

  unfoldable pub read_content : Header → ℕ → M (Session S W) Bytes
  read_content h n = if ltb 0 n then read_raw n >>= open_content h else pure []

  -- The content type and the length stand in the header.
  unfoldable pub read_packet : Header → ℕ × ℕ → M (Session S W) Frame
  read_packet h (content_type, n) = do
    content ← read_content h n
    pure (record { content_type = content_type; content = content })

  unfoldable pub read_body : Header → M (Session S W) Frame
  read_body h = lift (parse_header h.body) >>= read_packet h

  unfoldable pub read_frame : Bytes → M (Session S W) Frame
  read_frame raw = on_connection (open_header c raw) >>= read_body

  unfoldable pub on_application : V → M (Session S W) (Unit {0})
  on_application v s =
      let (world, result) = handlers.application_handler v s.world in
      (record s { world = world }, result)

  unfoldable pub on_handshake : V → M (Session S W) (Unit {0})
  on_handshake v s =
      let ((connection, world), result) =
        handlers.process_handshake_packet v (s.connection, s.world) in
      (record s { connection = connection; world = world }, result)

  -- A record of another type is passed over.
  unfoldable pub dispatch : Frame → M (Session S W) (Unit {0})
  unfolding on_connection switch_read_state on_application on_handshake
  dispatch f =
      if f.content_type == application_data_type
      then (do v ← lift (handlers.decode f.content); on_application v)
      else if f.content_type == handshake_type
      then (do v ← lift (handlers.decode f.content); on_handshake v)
      else if f.content_type == change_cipher_spec_type
      then on_connection switch_read_state
      else if f.content_type == alert_type
      then throw alert
      else pure tt

  abbrev pub header_length : Connection → ℕ
  header_length k = if initialized k.read_state then 16 else 8

  -- The rest of the loop behind a record that has been handed on.
  unfoldable pub after :
      (Session S W → Option (Session S W × Result (Unit {0})))
      → Session S W × Result (Unit {0})
      → Option (Session S W × Result (Unit {0}))
  after rest (s, ok u) = rest s
  after rest (s, err e) = some (s, err e)

  -- Nothing in place of a header ends the loop.
  unfoldable pub on_header :
      (Session S W → Option (Session S W × Result (Unit {0})))
      → Session S W
      → S × Bytes
      → Option (Session S W × Result (Unit {0}))
  unfolding after
  on_header rest s (stream, []) = some (record s { stream = stream }, ok tt)
  on_header rest s (stream, x ∷ xs) =
      after rest ((read_frame (x ∷ xs) >>= dispatch) (record s { stream = stream }))

  -- The loop of process, on the number of records; `none` where it runs out.
  unfoldable pub process : ℕ → Session S W → Option (Session S W × Result (Unit {0}))
  unfolding on_header
  process zero s = none
  process (suc fuel) s =
      if input.eof s.stream
      then some (s, ok tt)
      else on_header (process fuel) s (input.read_raw (header_length s.connection) s.stream)
