-- ===== src/Rpc/Connection/Keys.antt =====
-- The keys that a connection derives: a change of keys that follows always succeeds.
use privmx_endpoint.Common.{
  Result, ok, length, take, drop, take_all, drop-drop, Bytes, ◌≡◌, refl, sym, ap, ◌∙◌, true, [],
  ◌∷◌, ◌++◌, arith, take-append_eq, drop-append_eq,
}
use privmx_endpoint.Rpc.Ciphers.{Ciphers, IsSound}
use mathlib.Core.Path.{subst}
use privmx_endpoint.Rpc.Ciphers.Blocks.{block, length-block, prf_tls12-two, prf_tls12-four}
use privmx_endpoint.Rpc.Connection.{
  Connection, RwState, initialized, fresh_state, fresh_rw_states, next_states, restore_state,
  change_cipher_spec, set_pre_master_secret, key_expansion, master_secret_label,
  change_cipher_spec_type,
}
use privmx_endpoint.Rpc.Connection.Delivery.{written}
use privmx_endpoint.Rpc.Connection.Actions.{output-change_cipher_spec}

fresh_state-initialized :
    (key mac_key : Bytes)
    → length key ≡ 32
    → length mac_key ≡ 32
    → initialized (fresh_state key mac_key) ≡ true
unfolding initialized
fresh_state-initialized [] mac_key h k = absurd (omega arith)
fresh_state-initialized (x ∷ xs) [] h k = absurd (omega arith)
fresh_state-initialized (x ∷ xs) (y ∷ ys) h k = refl

-- The states of the client and of the server: of the four blocks that the master secret expands to,
-- the first two are their authentication keys and the others their keys.
abbrev pub derived_states : Ciphers → Bytes → Bytes → Bytes → RwState × RwState
derived_states c master_secret client_random server_random =
    let seed = key_expansion ++ (server_random ++ client_random) in
    (
      record {
        key = block c.crypto master_secret seed 2;
        mac_key = block c.crypto master_secret seed 0;
        sequence_number = 0;
      },
      record {
        key = block c.crypto master_secret seed 3;
        mac_key = block c.crypto master_secret seed 1;
        sequence_number = 0;
      },
    )

-- The 48 bytes that the pre-master secret expands to.
abbrev pub derived_secret : Ciphers → Bytes → Bytes → Bytes → Bytes
derived_secret c pre_master_secret client_random server_random =
    let seed = master_secret_label ++ (client_random ++ server_random) in
    block c.crypto pre_master_secret seed 0 ++ take 16 (block c.crypto pre_master_secret seed 1)

-- The four parts of 32 bytes that the keys are.
parts :
    (a b d e : Bytes)
    → length a ≡ 32
    → length b ≡ 32
    → length d ≡ 32
    → length e ≡ 32
    → (take 32 (a ++ (b ++ (d ++ e))) ≡ a)
      × (take 32 (drop 32 (a ++ (b ++ (d ++ e)))) ≡ b)
      × (take 32 (drop 64 (a ++ (b ++ (d ++ e)))) ≡ d)
      × (take 32 (drop 96 (a ++ (b ++ (d ++ e)))) ≡ e)
parts a b d e la lb ld le =
    let past_a = drop-append_eq 32 a (b ++ (d ++ e)) la in
    let past_b =
      sym (drop-drop 32 32 (a ++ (b ++ (d ++ e))))
      ∙ ap (drop 32) past_a
      ∙ drop-append_eq 32 b (d ++ e) lb in
    let past_d =
      sym (drop-drop 32 64 (a ++ (b ++ (d ++ e))))
      ∙ ap (drop 32) past_b
      ∙ drop-append_eq 32 d e ld in
    (
      take-append_eq 32 a (b ++ (d ++ e)) la,
      ap (take 32) past_a ∙ take-append_eq 32 b (d ++ e) lb,
      ap (take 32) past_b ∙ take-append_eq 32 d e ld,
      ap (take 32) past_d ∙ take_all 32 e (omega (arith, le)),
    )

module _ (c : Ciphers) (v : IsSound c) where
  fresh_rw_states-derived_states :
      (master_secret client_random server_random : Bytes)
      → fresh_rw_states c master_secret client_random server_random
        ≡ derived_states c master_secret client_random server_random
  unfolding fresh_rw_states
  fresh_rw_states-derived_states master_secret client_random server_random =
      let seed = key_expansion ++ (server_random ++ client_random) in
      let b = block c.crypto master_secret seed in
      let long = length-block c.crypto v.crypto_IsSound master_secret seed in
      let (client_mac, server_mac, client, server) =
        parts (b 0) (b 1) (b 2) (b 3) (long 0) (long 1) (long 2) (long 3) in
      rw
        (
          prf_tls12-four c.crypto v.crypto_IsSound master_secret seed,
          client_mac,
          server_mac,
          client,
          server,
        )
        refl

  derived_states-initialized :
      (master_secret client_random server_random : Bytes)
      → initialized (derived_states c master_secret client_random server_random).0 ≡ true
  derived_states-initialized master_secret client_random server_random =
      let seed = key_expansion ++ (server_random ++ client_random) in
      let long = length-block c.crypto v.crypto_IsSound master_secret seed in
      fresh_state-initialized (block c.crypto master_secret seed 2)
        (block c.crypto master_secret seed 0) (long 2) (long 0)

  -- The keys that a change of keys takes up, and those it leaves for the reader.
  abbrev pub TakesUp : Connection → RwState × RwState → Connection × Result (Unit {0}) → Type 0
  TakesUp k states done =
      (done.1 ≡ ok tt)
      × (done.0.write_state ≡ states.0)
      × (done.0.next_read_state ≡ states.1)
      × (done.0.read_state ≡ k.read_state)
      × (done.0.output ≡ k.output ++ written c k.write_state change_cipher_spec_type [])

  change_cipher_spec-next_states :
      (master_secret : Bytes) (k : Connection)
      → TakesUp k
          (derived_states c master_secret k.client_random k.server_random)
          (change_cipher_spec c (next_states c master_secret k))
  unfolding next_states
  change_cipher_spec-next_states master_secret k =
      let states = derived_states c master_secret k.client_random k.server_random in
      let e : next_states c master_secret k
          ≡ record k { next_read_state = states.1; next_write_state = states.0 } =
        ap (λ (p : RwState × RwState). record k { next_read_state = p.1; next_write_state = p.0 })
          (fresh_rw_states-derived_states master_secret k.client_random k.server_random) in
      let done =
        ap (change_cipher_spec c) e
        ∙ output-change_cipher_spec c
            (record k { next_read_state = states.1; next_write_state = states.0 })
            (derived_states-initialized master_secret k.client_random k.server_random) in
      subst (TakesUp k states) (sym done) (refl, refl, refl, refl, refl)

  -- restoreState does not throw: it ends the records under the old keys with one that changes
  -- them, takes up for writing the third block of the expansion of RFC 5246 (of the master secret
  -- and the label 'key expansion' with the random values) as the key and the first as the
  -- authentication key, and leaves the fourth and the second for the next change of the reader,
  -- both counting from 0; changeCipherSpec after setPreMasterSecret does the same for the master
  -- secret that is the first 48 bytes of the expansion of the pre-master secret. The
  -- authentication codes have 32 bytes.
  pub restore_state-change_cipher_spec :
      (ticket_id master_secret client_random pre_master_secret : Bytes) (k : Connection)
      → TakesUp k
          (derived_states c master_secret client_random ticket_id)
          (restore_state c ticket_id master_secret client_random k)
        × TakesUp k
            (derived_states c
              (derived_secret c pre_master_secret k.client_random k.server_random)
              k.client_random
              k.server_random)
            (change_cipher_spec c (set_pre_master_secret c pre_master_secret k))
  unfolding restore_state set_pre_master_secret next_states
  restore_state-change_cipher_spec ticket_id master_secret client_random pre_master_secret k =
      let secret = derived_secret c pre_master_secret k.client_random k.server_random in
      let seed = master_secret_label ++ (k.client_random ++ k.server_random) in
      (
        change_cipher_spec-next_states master_secret (record k {
          client_random = client_random;
          server_random = ticket_id;
          master_secret = master_secret;
        }),
        subst
            (λ m.
              TakesUp k (derived_states c secret k.client_random k.server_random)
                (change_cipher_spec c (next_states c m (record k { master_secret = m }))))
            (sym (prf_tls12-two c.crypto v.crypto_IsSound pre_master_secret seed))
            (change_cipher_spec-next_states secret (record k { master_secret = secret })),
      )
