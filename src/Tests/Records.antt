-- ===== src/Tests/Records.antt =====
-- Two packets and a change of keys between them, sent and read.
use privmx_endpoint.Common.{
  ltb, le→ltb, u32, u64, ok, err, length, take, drop, length-append, take_all, drop_all, Bytes,
  zero, suc, ◌≡◌, refl, ap, Bool, true, false, some, List, [], ◌∷◌, ◌++◌, arith, take-append_eq,
  drop-append_eq, frame_header_tags_are_not_equal,
}
use privmx_endpoint.Store.Crypto.{plain_crypto, plain_crypto-IsSound, digest, pad, last}
use privmx_endpoint.Rpc.Ciphers.{Ciphers, IsSound}
use privmx_endpoint.Rpc.Connection.{
  Connection, RwState, initialized, fresh_state, header_tag, frame_seed, header_body, sealed_length,
  restore_state, change_cipher_spec, set_pre_master_secret, be32, be64, next_record, send,
}
use privmx_endpoint.Rpc.Connection.Reading.{Input, Handlers}
use privmx_endpoint.Rpc.Connection.Process.{Session, process}
use privmx_endpoint.Rpc.Connection.Contents.{Reads}
use privmx_endpoint.Rpc.Connection.Actions.{
  Action, packet, new_keys, perform, perform_all, CanPerform,
}
use privmx_endpoint.Rpc.Connection.Transfer.{IsInStep, process-perform_all}
use privmx_endpoint.Rpc.Connection.Keys.{
  TakesUp, derived_states, derived_secret, restore_state-change_cipher_spec,
}
use privmx_endpoint.Rpc.Connection.Replay.{HasNoCollision, packet_header, process-replayed}

abbrev ciphers : Ciphers
ciphers = record {
  crypto = plain_crypto;
  aes_ecb_encrypt = λ block key. block;
  aes_ecb_decrypt = λ block key. ok block;
}

ciphers-IsSound : IsSound ciphers
ciphers-IsSound = record {
  crypto_IsSound = plain_crypto-IsSound;
  block_length = λ block key h. h;
  decrypts_block = λ block key h. refl;
}

-- A stream of bytes; the second part says whether a read has met the end.
abbrev input : Input (Bytes × Bool)
input = record { read_raw = λ n s. ((drop n s.0, ltb (length s.0) n), take n s.0); eof = λ s. s.1 }

input-Reads : Reads input (λ s. s.0)
input-Reads = record {
  reads = λ s xs ys e more. (
    (ys, false),
    rw (e, drop-append_eq (length xs) xs ys refl, take-append_eq (length xs) xs ys refl)
        (ap (λ b. ((ys, b), xs))
          (le→ltb (length (xs ++ ys)) (length xs) (omega (arith, length-append xs ys)))),
    refl,
    refl,
  );
  ends = λ s n e. (
    (drop n s.0, ltb (length s.0) n),
    rw e (ap (λ l. ((drop n [], ltb 0 n), l)) (take_all n [] (omega arith))),
    rw e (drop_all n [] (omega arith)),
  );
}

abbrev handlers : Handlers (List Bytes) Bytes
handlers = record {
  decode = λ b. ok b;
  application_handler = λ b w. (b ∷ w, ok tt);
  process_handshake_packet = λ b s. (s, ok tt);
}

abbrev no_keys : RwState
no_keys = fresh_state [] []

abbrev new_state : RwState
new_state = fresh_state (1 ∷ []) (2 ∷ [])

abbrev writer : Connection
writer = record {
  output = [];
  write_state = no_keys;
  read_state = no_keys;
  next_write_state = new_state;
  next_read_state = no_keys;
  client_random = [];
  server_random = [];
  master_secret = [];
}

abbrev reader : Connection
reader = record writer { next_read_state = new_state; next_write_state = no_keys }

abbrev actions : List Action
actions = packet (5 ∷ 6 ∷ []) ∷ new_keys ∷ packet (7 ∷ []) ∷ []

abbrev at_start : Session (Bytes × Bool) (List Bytes)
at_start = record {
  stream = ((perform_all ciphers actions writer).output, false);
  connection = reader;
  world = [];
}

actions-CanPerform : CanPerform ciphers actions writer
unfolding initialized perform send
actions-CanPerform = (omega arith, (refl, (omega arith, tt)))

process-perform_all_example :
    (s' : Session (Bytes × Bool) (List Bytes)) × (process ciphers input handlers 4 at_start
      ≡ some (s', ok tt))
    × (s'.world ≡ (7 ∷ []) ∷ (5 ∷ 6 ∷ []) ∷ [])
    × IsInStep (perform_all ciphers actions writer) s'.connection
    × (s'.stream.0 ≡ [])
process-perform_all_example =
    process-perform_all ciphers ciphers-IsSound input (λ s. s.0) input-Reads handlers (λ p. p)
      (λ p w. p ∷ w) (λ p. refl) (λ p w. refl) actions writer at_start actions-CanPerform refl
      (record { same_state = refl; same_next = refl }) (refl, refl)

restore_state-change_cipher_spec_example :
    TakesUp ciphers ciphers-IsSound writer
      (derived_states ciphers (3 ∷ []) (4 ∷ []) (5 ∷ []))
      (restore_state ciphers (5 ∷ []) (3 ∷ []) (4 ∷ []) writer)
    × TakesUp ciphers ciphers-IsSound writer
        (derived_states ciphers (derived_secret ciphers (6 ∷ []) [] []) [] [])
        (change_cipher_spec ciphers (set_pre_master_secret ciphers (6 ∷ []) writer))
restore_state-change_cipher_spec_example =
    restore_state-change_cipher_spec ciphers ciphers-IsSound (5 ∷ []) (3 ∷ []) (4 ∷ []) (6 ∷ [])
      writer

-- A side that sends its record of number 255, and a stream that has it twice.
abbrev late_writer : Connection
late_writer = record writer { write_state = record new_state { sequence_number = 255 } }

abbrev replaying : Session (Bytes × Bool) (List Bytes)
replaying = record {
  stream = (
    (perform_all ciphers (packet (5 ∷ []) ∷ []) late_writer).output
        ++ (perform ciphers (packet (5 ∷ [])) late_writer).output,
    false,
  );
  connection = record reader { read_state = late_writer.write_state; next_read_state = new_state };
  world = [];
}

still_keyed : initialized late_writer.write_state ≡ true
unfolding initialized
still_keyed = refl

late-HasNoCollision :
    HasNoCollision ciphers (2 ∷ []) (frame_seed late_writer.write_state (packet_header (5 ∷ []))) (
      frame_seed
        (perform_all ciphers (packet (5 ∷ []) ∷ []) late_writer).write_state
        (packet_header (5 ∷ [])))
unfolding header_tag frame_seed header_body be64 be32 sealed_length digest pad last u32 u64
    perform_all perform send next_record initialized
late-HasNoCollision e = let wrong : zero ≡ suc zero = ap (last 0) e in absurd (omega (arith, wrong))

process-replayed_example :
    (s' : Session (Bytes × Bool) (List Bytes)) × (process ciphers input handlers 2 replaying
      ≡ some (s', err frame_header_tags_are_not_equal))
    × (s'.world ≡ (5 ∷ []) ∷ [])
process-replayed_example =
    process-replayed ciphers ciphers-IsSound input (λ s. s.0) input-Reads handlers (λ p. p)
      (λ p w. p ∷ w) (λ p. refl) (λ p w. refl) (5 ∷ []) [] late_writer replaying still_keyed
      (omega arith) (omega arith) (omega arith, tt) refl
      (record { same_state = refl; same_next = refl }) late-HasNoCollision (refl, refl)
