-- ===== src/Rpc/Connection/Delivery.antt =====
-- Whatever one side has written is delivered on the other side in the order in which it was sent.
use privmx_endpoint.Common.{
  if◌then◌else◌, Bool-cases, two32, u32, Result, ok, length, Bytes, ℕ, suc, ◌+◌, ◌<◌, ◌≡◌, refl,
  sym, ap, ◌∙◌, inl, inr, true, false, [], ◌∷◌, ◌++◌, append_assoc, arith,
}
use privmx_endpoint.Common.State.{◌>>=◌, >>=-ok, lift, pure}
use privmx_endpoint.Rpc.Ciphers.{Ciphers, IsSound}
use privmx_endpoint.Rpc.Connection.{
  Connection, RwState, initialized, header_body, frame_seed, sealed_length, sealed_header,
  sealed_data, sealed_frame, plain_frame, next_record,
}
use privmx_endpoint.Rpc.Connection.Reading.{Input, Handlers, Header, parse_header, open_header}
use privmx_endpoint.Rpc.Connection.Process.{
  Session, read_content, read_packet, read_body, read_frame, on_connection, dispatch, process,
  on_header, after, header_length,
}
use privmx_endpoint.Rpc.Connection.Frames.{
  length-header_body, parse_header-header_body, length-sealed_header, open_header-sealed_header,
}
use privmx_endpoint.Rpc.Connection.Contents.{
  Reads, StandsAt, read_content_plain, read_content_sealed,
}

sealed_length-lt : (packet : Bytes) → sealed_length packet < two32
unfolding sealed_length u32
sealed_length-lt packet = ground arith

-- What `send` writes under a state, and the state behind it.
abbrev pub written : Ciphers → RwState → ℕ → Bytes → Bytes
written c rs content_type packet =
    if initialized rs
    then sealed_frame c rs content_type packet
    else plain_frame c content_type packet

abbrev pub advanced : RwState → RwState
advanced rs = if initialized rs then next_record rs else rs

module _ {S W V : Type 0} (c : Ciphers) (v : IsSound c) (input : Input S) (rest : S → Bytes)
    (law : Reads input rest) (handlers : Handlers W V) where
  abbrev At : S → Bytes → Type 0
  At s more = StandsAt c v input rest law handlers s more

  -- A header that has been opened is followed by its packet.
  read_frame-opened :
      (s : Session S W) (raw : Bytes) (k : Connection) (h : Header) (t n : ℕ) (packet : Bytes)
      (s' : S)
      → open_header c raw s.connection ≡ (k, ok h)
      → parse_header h.body ≡ ok (t, n)
      → read_content c input handlers h n (record s { connection = k })
        ≡ (record s { stream = s'; connection = k }, ok packet)
      → read_frame c input handlers raw s ≡ (
        record s { stream = s'; connection = k },
        ok (record { content_type = t; content = packet }),
      )
  unfolding read_frame read_body read_packet on_connection
  read_frame-opened s raw k h t n packet s' o p r =
      >>=-ok (on_connection c input handlers (open_header c raw)) (read_body c input handlers) s
        (ap (λ (q : Connection × Result Header). (record s { connection = q.0 }, q.1)) o)
      ∙ >>=-ok (lift (parse_header h.body)) (read_packet c input handlers h)
          (record s { connection = k }) (ap (λ q. (record s { connection = k }, q)) p)
      ∙ >>=-ok (read_content c input handlers h n)
          (λ content. pure (record { content_type = t; content = content }))
          (record s { connection = k }) r

  module _ (s : Session S W) (t : ℕ) (packet more : Bytes) (fits : length packet + 16 < two32) where
    abbrev rs : RwState
    rs = s.connection.read_state

    abbrev body : Bytes
    body = header_body t (sealed_length packet)

    read_frame-sealed :
        initialized rs ≡ true
        → At s.stream (sealed_data c rs body packet ++ more)
        → (s' : S) × (read_frame c input handlers (sealed_header c rs body) s ≡ (
          record s {
            stream = s';
            connection = record s.connection { read_state = next_record rs };
          },
          ok (record { content_type = t; content = packet }),
        ))
          × At s' more
    read_frame-sealed i at =
        let k : Connection = record s.connection { read_state = next_record rs } in
        let (s', r, at') =
          read_content_sealed c v input rest law handlers (record s { connection = k }) rs body
            packet more refl i fits at in
        (
          s',
          read_frame-opened s (sealed_header c rs body) k
              (record { body = body; seed = frame_seed rs body; iv = sealed_header c rs body }) t
              (sealed_length packet) packet s'
              (open_header-sealed_header c v s.connection body
                (length-header_body t (sealed_length packet)) i)
              (parse_header-header_body t (sealed_length packet) (sealed_length-lt packet)) r,
          at',
        )

    read_frame-plain :
        initialized rs ≡ false
        → At s.stream (packet ++ more)
        → (s' : S) × (read_frame c input handlers (header_body t (length packet)) s
            ≡ (record s { stream = s' }, ok (record { content_type = t; content = packet })))
          × At s' more
    unfolding open_header
    read_frame-plain i at =
        let h : Header = record { body = header_body t (length packet); seed = []; iv = [] } in
        let (s', r, at') = read_content_plain c v input rest law handlers s h packet more i at in
        (
          s',
          read_frame-opened s h.body s.connection h t (length packet) packet s' (rw i refl)
              (parse_header-header_body t (length packet) (omega (arith, fits))) r,
          at',
        )

  pub process_some :
      (s : Session S W) (fuel : ℕ) (raw : Bytes) (stream : S)
      → 0 < length raw
      → input.eof s.stream ≡ false
      → input.read_raw (header_length c input handlers s.connection) s.stream ≡ (stream, raw)
      → process c input handlers (suc fuel) s
        ≡ after c input handlers (process c input handlers fuel) (
            (read_frame c input handlers raw >>= dispatch c input handlers)
              (record s { stream = stream }))
  unfolding process on_header
  process_some s fuel [] stream some_bytes e r = absurd (omega arith)
  process_some s fuel (x ∷ xs) stream some_bytes e r =
      rw e (ap (on_header c input handlers (process c input handlers fuel) s) r)

  -- The reader hands a written record on as it was sent, and counts it.
  pub process-written :
      (s : Session S W) (t : ℕ) (packet more : Bytes) (fuel : ℕ)
      → length packet + 16 < two32
      → At s.stream (written c s.connection.read_state t packet ++ more)
      → (s' : S) × (process c input handlers (suc fuel) s
          ≡ after c input handlers (process c input handlers fuel) (
              dispatch c input handlers
                (record { content_type = t; content = packet })
                (record s {
                  stream = s';
                  connection = record s.connection {
                    read_state = advanced s.connection.read_state;
                  };
                })))
        × At s' more
  unfolding sealed_frame plain_frame
  process-written s t packet more fuel fits (e, begun) =
      elim (Bool-cases (initialized s.connection.read_state)) [
        | inl i ↦
            let rs = s.connection.read_state in
            let body = header_body t (sealed_length packet) in
            let head = sealed_header c rs body in
            let data' = sealed_data c rs body packet in
            let whole =
              length-sealed_header c v rs body (length-header_body t (sealed_length packet)) in
            let (s1, r, e1, begun1) =
              law.reads s.stream head (data' ++ more) (e ∙ rw i (append_assoc head data' more))
                begun in
            let (s2, r2, at2) =
              read_frame-sealed (record s { stream = s1 }) t packet more fits i (e1, begun1) in
            (
              s2,
              process_some s fuel head s1 (omega (arith, whole)) begun
                    (rw i (ap (λ n. input.read_raw n s.stream) (sym whole) ∙ r))
                  ∙ ap (after c input handlers (process c input handlers fuel)) (
                      >>=-ok (read_frame c input handlers head) (dispatch c input handlers)
                        (record s { stream = s1 }) r2
                      ∙ rw i refl),
              at2,
            )
        | inr i ↦
            let head = header_body t (length packet) in
            let (s1, r, e1, begun1) =
              law.reads s.stream head (packet ++ more) (e ∙ rw i (append_assoc head packet more))
                begun in
            let (s2, r2, at2) =
              read_frame-plain (record s { stream = s1 }) t packet more fits i (e1, begun1) in
            (
              s2,
              process_some s fuel head s1 (omega (arith, length-header_body t (length packet)))
                    begun
                    (rw i (
                      ap (λ n. input.read_raw n s.stream)
                        (sym (length-header_body t (length packet)))
                      ∙ r))
                  ∙ ap (after c input handlers (process c input handlers fuel)) (
                      >>=-ok (read_frame c input handlers head) (dispatch c input handlers)
                        (record s { stream = s1 }) r2
                      ∙ rw i refl),
              at2,
            )
      ]
