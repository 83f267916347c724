-- ===== src/Rpc/Connection/Actions.antt =====
-- The records that a side writes by sending packets and changing its keys.
use privmx_endpoint.Common.{
  Bool-cases, two32, Result, ok, length, Bytes, ℕ, ◌+◌, ◌<◌, ◌≡◌, refl, sym, ap, ◌∙◌, inl, inr,
  true, false, List, [], ◌∷◌, ◌++◌, append-nil, append_assoc,
}
use privmx_endpoint.Rpc.Ciphers.{Ciphers}
use privmx_endpoint.Rpc.Connection.{
  Connection, initialized, fresh_state, send, change_cipher_spec, change_cipher_spec_type,
  application_data_type,
}
use privmx_endpoint.Rpc.Connection.Delivery.{written, advanced}

-- What a side does: it sends a packet of application data, or changes its keys.
pub data Action : Type 0 where
  packet : Bytes → Action
  new_keys : Action

module _ (c : Ciphers) where
  unfoldable pub perform : Action → Connection → Connection
  perform (packet p) k = send c p application_data_type false k
  perform new_keys k = (change_cipher_spec c k).0

  unfoldable pub perform_all : List Action → Connection → Connection
  unfolding perform
  perform_all [] k = k
  perform_all (a ∷ rest) k = perform_all rest (perform a k)

  -- The bytes that the actions write.
  unfoldable pub records : List Action → Connection → Bytes
  records [] k = []
  records (packet p ∷ rest) k =
      written c k.write_state application_data_type p ++ records rest (perform (packet p) k)
  records (new_keys ∷ rest) k =
      written c k.write_state change_cipher_spec_type [] ++ records rest (perform new_keys k)

  -- Packets fit their length's word, and keys are changed only where there are new ones.
  abbrev pub CanPerform : List Action → Connection → Type 0
  CanPerform [] k = Unit {0}
  CanPerform (packet p ∷ rest) k = (length p + 16 < two32) × CanPerform rest (perform (packet p) k)
  CanPerform (new_keys ∷ rest) k =
      (initialized k.next_write_state ≡ true) × CanPerform rest (perform new_keys k)

  pub output-send :
      (p : Bytes) (t : ℕ) (k : Connection)
      → send c p t false k ≡ record k {
        output = k.output ++ written c k.write_state t p;
        write_state = advanced k.write_state;
      }
  unfolding send
  output-send p t k = elim (Bool-cases (initialized k.write_state)) [
    | inl i ↦ rw i refl
    | inr i ↦ rw i refl
  ]

  pub output-change_cipher_spec :
      (k : Connection)
      → initialized k.next_write_state ≡ true
      → change_cipher_spec c k ≡ (
        record k {
          output = k.output ++ written c k.write_state change_cipher_spec_type [];
          write_state = k.next_write_state;
          next_write_state = fresh_state [] [];
        },
        ok tt,
      )
  unfolding change_cipher_spec
  output-change_cipher_spec k i = rw (i, output-send [] change_cipher_spec_type k) refl

  pub perform_all-records :
      (actions : List Action) (k : Connection)
      → CanPerform actions k
      → (perform_all actions k).output ≡ k.output ++ records actions k
  unfolding perform_all records
  perform_all-records [] k able = sym (append-nil k.output)
  perform_all-records (packet p ∷ rest) k (fits, able) =
      let w = written c k.write_state application_data_type p in
      perform_all-records rest (perform (packet p) k) able
      ∙ ap (λ o. o ++ records rest (perform (packet p) k))
          (ap (λ (h : Connection). h.output) (output-send p application_data_type k))
      ∙ append_assoc k.output w (records rest (perform (packet p) k))
  perform_all-records (new_keys ∷ rest) k (i, able) =
      let w = written c k.write_state change_cipher_spec_type [] in
      perform_all-records rest (perform new_keys k) able
      ∙ ap (λ o. o ++ records rest (perform new_keys k))
          (ap (λ (r : Connection × Result (Unit {0})). r.0.output) (output-change_cipher_spec k i))
      ∙ append_assoc k.output w (records rest (perform new_keys k))
