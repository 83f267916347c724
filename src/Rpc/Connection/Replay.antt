-- ===== src/Rpc/Connection/Replay.antt =====
-- A record that is put in front of the reader a second time is refused.
use privmx_endpoint.Common.{
  Bool-cases, two64, u32, u64, Result, ok, err, length, take, Bytes, bytes_eq, bytes_eq→eq, ℕ, suc,
  ◌+◌, ◌*◌, ◌^◌, ◌<◌, ◌≡◌, refl, sym, ap, ◌∙◌, ◌≢◌, inl, inr, true, false, some, List, [], ◌∷◌,
  ◌++◌, map, append-nil, append_assoc, arith, take-append_eq, substr-prefix, substr_from-prefix,
  frame_header_tags_are_not_equal,
}
use privmx_endpoint.Common.State.{>>=-err}
use mathlib.Core.Path.{subst}
use privmx_endpoint.Rpc.Ciphers.{Ciphers, IsSound}
use privmx_endpoint.Rpc.Connection.{
  Connection, RwState, be32, be64, application_data_type, initialized, header_body, header_tag,
  frame_seed, sealed_length, sealed_header, sealed_data, sealed_frame, next_record,
}
use privmx_endpoint.Rpc.Connection.Reading.{Input, Handlers, Header, open_header, split_header}
use privmx_endpoint.Rpc.Connection.Process.{
  Session, read_frame, read_body, dispatch, on_connection, process, after,
}
use privmx_endpoint.Rpc.Connection.Frames.{
  length-header_body, length-sealed_header, tagged, length-tagged,
}
use privmx_endpoint.Rpc.Connection.Contents.{Reads, StandsAt}
use privmx_endpoint.Rpc.Connection.Delivery.{process_some, written}
use privmx_endpoint.Rpc.Connection.Actions.{
  Action, packet, perform, perform_all, CanPerform, output-send, perform_all-records, records,
}
use privmx_endpoint.Rpc.Connection.Transfer.{IsInStep, received, process-records}

bytes_eq-false : (xs ys : Bytes) → xs ≢ ys → bytes_eq xs ys ≡ false
bytes_eq-false xs ys ne = elim (Bool-cases (bytes_eq xs ys)) [
  | inl same ↦ absurd (ne (bytes_eq→eq xs ys same))
  | inr other ↦ other
]

module _ (c : Ciphers) (v : IsSound c) where
  -- The tag that the reader expects is another one.
  abbrev TagsDiffer : RwState → RwState → Bytes → Type 0
  TagsDiffer old now body =
      header_tag c old.mac_key (frame_seed old body)
      ≢ header_tag c now.mac_key (frame_seed now body)

  open_header-replayed :
      (old : RwState) (body : Bytes) (k : Connection)
      → length body ≡ 8
      → initialized k.read_state ≡ true
      → k.read_state.key ≡ old.key
      → TagsDiffer old k.read_state body
      → open_header c (sealed_header c old body) k
        ≡ (record k { read_state = next_record k.read_state }, err frame_header_tags_are_not_equal)
  unfolding open_header sealed_header split_header
  open_header-replayed old body k whole i same_key differ =
      let tag = header_tag c old.mac_key (frame_seed old body) in
      rw
        (
          i,
          ap (c.aes_ecb_decrypt (c.aes_ecb_encrypt (body ++ tag) old.key)) same_key
              ∙ v.decrypts_block (tagged c v old body whole) old.key
                  (length-tagged c v old body whole),
          substr_from-prefix body tag 8 whole,
          substr-prefix body tag 8 whole,
          bytes_eq-false tag (header_tag c k.read_state.mac_key (frame_seed k.read_state body))
              differ,
        )
        refl

value64 : Bytes → ℕ
value64 (a ∷ b ∷ c ∷ d ∷ e ∷ f ∷ g ∷ h ∷ xs) =
    a * 2 ^ 56 + b * 2 ^ 48 + c * 2 ^ 40 + d * 2 ^ 32 + e * 2 ^ 24 + f * 2 ^ 16 + g * 2 ^ 8 + h
value64 xs = 0

value64-be64 : (n : ℕ) → n < two64 → value64 (be64 n) ≡ n
unfolding value64 be64 be32 u32
value64-be64 n small = omega (arith, small)

-- The bytes of a number below 2^64 tell it from the others.
be64-eq : (a b : ℕ) → a < two64 → b < two64 → be64 a ≡ be64 b → a ≡ b
be64-eq a b small small' e = sym (value64-be64 a small) ∙ ap value64 e ∙ value64-be64 b small'

module _ (c : Ciphers) where
  abbrev packets : List Bytes → List Action
  packets ps = map packet ps

  length-packets : (ps : List Bytes) → length (packets ps) ≡ length ps
  length-packets [] = refl
  length-packets (p ∷ ps) = omega (arith, length-packets ps)

  -- Every packet counts.
  perform_all-counted :
      (ps : List Bytes) (k : Connection)
      → initialized k.write_state ≡ true
      → k.write_state.sequence_number < two64
      → (perform_all c (packets ps) k).write_state
        ≡ record k.write_state { sequence_number = u64 (k.write_state.sequence_number + length ps) }
  unfolding perform_all perform u64 initialized next_record
  perform_all-counted [] k i small =
      ap (λ n. record k.write_state { sequence_number = n }) (omega (arith, small))
  perform_all-counted (p ∷ ps) k i small =
      let q = perform c (packet p) k in
      let state : q.write_state ≡ next_record k.write_state =
        ap (λ (h : Connection). h.write_state) (output-send c p application_data_type k)
        ∙ rw i refl in
      let number : q.write_state.sequence_number ≡ u64 (k.write_state.sequence_number + 1) =
        ap (λ (w : RwState). w.sequence_number) state in
      perform_all-counted ps q (ap initialized state ∙ i) (omega (arith, number))
      ∙ ap (λ (w : RwState). record w { sequence_number = u64 (w.sequence_number + length ps) })
          state
      ∙ ap (λ n. record k.write_state { sequence_number = n }) (omega arith)

module _ {S W V : Type 0} (c : Ciphers) (v : IsSound c) (input : Input S) (rest : S → Bytes)
    (law : Reads input rest) (handlers : Handlers W V) where
  process-refused :
      (s : Session S W) (old : RwState) (t : ℕ) (text more : Bytes) (fuel : ℕ)
      → initialized s.connection.read_state ≡ true
      → s.connection.read_state.key ≡ old.key
      → TagsDiffer c v old s.connection.read_state (header_body t (sealed_length text))
      → StandsAt c v input rest law handlers s.stream (sealed_frame c old t text ++ more)
      → (s' : Session S W) × (process c input handlers (suc fuel) s
          ≡ some (s', err frame_header_tags_are_not_equal))
        × (s'.world ≡ s.world)
  unfolding sealed_frame read_frame on_connection after
  process-refused s old t text more fuel i same_key differ (e, begun) =
      let body = header_body t (sealed_length text) in
      let head = sealed_header c old body in
      let data' = sealed_data c old body text in
      let whole = length-sealed_header c v old body (length-header_body t (sealed_length text)) in
      let (s1, r, e1, begun1) =
        law.reads s.stream head (data' ++ more) (e ∙ append_assoc head data' more) begun in
      let opened =
        open_header-replayed c v old body s.connection (length-header_body t (sealed_length text)) i
          same_key differ in
      (
        record s {
          stream = s1;
          connection = record s.connection { read_state = next_record s.connection.read_state };
        },
        process_some c v input rest law handlers s fuel head s1 (omega (arith, whole)) begun
              (rw i (ap (λ n. input.read_raw n s.stream) (sym whole) ∙ r))
            ∙ ap (after c input handlers (process c input handlers fuel)) (
                >>=-err (read_frame c input handlers head) (dispatch c input handlers)
                  (record s { stream = s1 })
                  (>>=-err (on_connection c input handlers (open_header c head))
                    (read_body c input handlers) (record s { stream = s1 })
                    (ap
                      (λ (q : Connection × Result Header).
                        (record s { stream = s1; connection = q.0 }, q.1))
                      opened))),
        refl,
      )

frame_seed-number :
    (a b : RwState) (body : Bytes)
    → a.sequence_number < two64
    → b.sequence_number < two64
    → frame_seed a body ≡ frame_seed b body
    → a.sequence_number ≡ b.sequence_number
unfolding frame_seed be64 be32
frame_seed-number a b body small small' e =
    be64-eq a.sequence_number b.sequence_number small small' (
      sym (take-append_eq 8 (be64 a.sequence_number) body refl)
      ∙ ap (take 8) e
      ∙ take-append_eq 8 (be64 b.sequence_number) body refl)

-- The header of a packet's record.
abbrev pub packet_header : Bytes → Bytes
packet_header p = header_body application_data_type (sealed_length p)

-- The authentication code, cut to eight bytes, tells two texts apart.
abbrev pub HasNoCollision : Ciphers → Bytes → Bytes → Bytes → Type 0
HasNoCollision c mac_key a b = header_tag c mac_key a ≡ header_tag c mac_key b → a ≡ b

-- The reader's state has counted on since the record was sealed.
frame_seed-TagsDiffer :
    (c : Ciphers) (v : IsSound c) (old now : RwState) (n : ℕ) (body : Bytes)
    → old.sequence_number < two64
    → suc n < two64
    → now ≡ record old { sequence_number = u64 (old.sequence_number + suc n) }
    → HasNoCollision c old.mac_key (frame_seed old body) (frame_seed now body)
    → TagsDiffer c v old now body
unfolding u64
frame_seed-TagsDiffer c v old now n body small few counted no_collision h =
    let number = ap (λ (z : RwState). z.sequence_number) counted in
    let seeds =
      no_collision
        (h ∙ ap (λ (z : RwState). header_tag c z.mac_key (frame_seed now body)) counted) in
    let same = frame_seed-number old now body small (omega (arith, number)) seeds in
    omega (arith, number, same, few, small)

module _ {S W V : Type 0} (c : Ciphers) (v : IsSound c) (input : Input S) (rest : S → Bytes)
    (law : Reads input rest) (handlers : Handlers W V) (value : Bytes → V) (step : V → W → W)
    (decodes : (p : Bytes) → handlers.decode p ≡ ok (value p))
    (accepts : (x : V) (w : W) → handlers.application_handler x w ≡ (step x w, ok tt)) where
  -- Where one side sends a packet and then others under the same keys, and the record of the first
  -- stands in the stream once more behind all of them, the other side's loop hands each packet on
  -- once, in order, and refuses the repeated record with FrameHeaderTagsAreNotEqualException,
  -- within two rounds more than there are other packets. The sides are in step and have keys, the
  -- sequence number and the number of packets are below 2^64, the authentication code does not
  -- give one tag to the two headers if these differ, the ciphers are sound, every packet is
  -- shorter than 2^32 - 16 bytes and is decoded and handled without an exception, the output began
  -- empty, and the stream gives its bytes in order.
  pub process-replayed :
      (p : Bytes) (more : List Bytes) (k : Connection) (s : Session S W)
      → initialized k.write_state ≡ true
      → k.write_state.sequence_number < two64
      → suc (length more) < two64
      → CanPerform c (packet p ∷ map packet more) k
      → k.output ≡ []
      → IsInStep k s.connection
      → HasNoCollision c k.write_state.mac_key
          (frame_seed k.write_state (packet_header p))
          (frame_seed (perform_all c (packet p ∷ map packet more) k).write_state (packet_header p))
      → StandsAt c v input rest law handlers s.stream
          ((perform_all c (packet p ∷ map packet more) k).output ++ (perform c (packet p) k).output)
      → (s' : Session S W) × (process c input handlers (length more + 2) s
          ≡ some (s', err frame_header_tags_are_not_equal))
        × (s'.world
            ≡ received c v input rest law handlers value step decodes accepts
                (packet p ∷ map packet more)
                s.world)
  unfolding initialized perform
  process-replayed p more k s i small few able fresh same no_collision (e, begun) =
      let acts = packet p ∷ map packet more in
      let ws = k.write_state in
      let body = packet_header p in
      let again = sealed_frame c ws application_data_type p in
      let counted = perform_all-counted c (p ∷ more) k i small in
      let first : (perform c (packet p) k).output ≡ again =
        ap (λ (h : Connection). h.output) (output-send c p application_data_type k)
        ∙ ap (λ o. o ++ written c ws application_data_type p) fresh
        ∙ rw i refl in
      let all : (perform_all c acts k).output ≡ records c acts k =
        perform_all-records c acts k able ∙ ap (λ o. o ++ records c acts k) fresh in
      let (t, r, w, same', at) =
        process-records c v input rest law handlers value step decodes accepts acts k s again 1 able
          same
          (
            e
                ∙ ap (λ o. o ++ (perform c (packet p) k).output) all
                ∙ ap (λ o. records c acts k ++ o) first,
            begun,
          ) in
      let read = same'.same_state ∙ counted in
      let differ =
        frame_seed-TagsDiffer c v ws t.connection.read_state (length more) body small few read (
          subst (λ z. HasNoCollision c ws.mac_key (frame_seed ws body) (frame_seed z body))
            (sym same'.same_state) no_collision) in
      let (s', r', w') =
        process-refused c v input rest law handlers t ws application_data_type p [] 0
          (ap initialized read ∙ i) (ap (λ (z : RwState). z.key) read) differ
          (at.0 ∙ sym (append-nil again), at.1) in
      (
        s',
        ap (λ n. process c input handlers n s) {x = length more + 2} {y = length acts + 1}
              (omega (arith, length-packets c more))
            ∙ r
            ∙ r',
        w' ∙ w,
      )
