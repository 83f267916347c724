-- ===== src/Common/Outcome.antt =====
-- Exceptions as values: the exceptions that the modelled code throws or passes on.
use mathlib.Core.Path.{◌≡◌, refl}
use mathlib.Core.Logic.{◌⊎◌, inl, inr}
use mathlib.Core.Bool.{Bool, true, false}

pub data Error : Type 0 where
  out_of_range : Error
  cipher_failure : Error
  server_failure : Error
  invalid_file_top_hash : Error
  invalid_hash_size : Error
  hash_index_out_of_bounds : Error
  file_chunk_invalid_checksum : Error
  file_chunk_invalid_cipher_checksum : Error
  file_corrupted : Error
  file_version_mismatch : Error
  invalid_file_chunk_size : Error
  data_bigger_than_declared : Error
  data_smaller_than_declared : Error
  data_different_than_declared : Error
  pos_out_of_bounds : Error
  file_random_write_internal : Error
  invalid_file_handle : Error
  invalid_file_read_handle : Error
  invalid_file_write_handle : Error
  no_handle_found : Error
  tickets_count_is_equal_zero : Error
  undefined_behaviour : Error
  invalid_version_format : Error
  invalid_subscription_query : Error
  incorrect_key_id_format : Error
  unsupported_frame_version : Error
  frame_header_tags_are_not_equal : Error
  frame_macs_are_not_equal : Error
  invalid_next_read_state : Error
  write_state_is_not_initialized : Error
  alert : Error
  key_provider_request_completed : Error
  unknown_encryption_key_version : Error
  encryption_key_container_validation : Error
  data_integrity_object_duplicated : Error
  user_verification_failure : Error
  user_verification_method_unhandled : Error
  malformed_verifier_response : Error
  data_integrity_object_mismatch_enc_key : Error
  malformed_data_integrity_object : Error
  data_integrity_object_invalid_signature : Error
  invalid_data_integrity_object_checksum : Error
  malformed_encryption_key : Error
  unsupported_type : Error
  invalid_data_signature : Error
  invalid_first_byte_of_cipher : Error
  given_public_key_does_not_match_with_signature : Error
  given_priv_key_does_not_match : Error

-- What a call returns, or the exception it throws.
pub data Result {ℓ} (T : Type ℓ) : Type ℓ where
  ok : T → Result T
  err : Error → Result T

-- `if (!test) throw e;`
abbrev pub guard : Bool → Error → Result (Unit {0})
guard test thrown = elim test [ true ↦ ok tt | false ↦ err thrown ]

-- The rest of a body after a call that may throw.
infixl 5 ◌>>=◌
abbrev pub ◌>>=◌ {ℓ μ} : {T : Type ℓ} {U : Type μ} → Result T → (T → Result U) → Result U
(err thrown) >>= rest = err thrown
(ok value) >>= rest = rest value

infixl 5 ◌>>◌
abbrev pub ◌>>◌ {μ} : {U : Type μ} → Result (Unit {0}) → Result U → Result U
(err thrown) >> rest = err thrown
(ok done) >> rest = rest

pub Result-cases {ℓ} :
    {A : Type ℓ} (r : Result A) → ((a : A) × (r ≡ ok a)) ⊎ ((e : Error) × (r ≡ err e))
Result-cases (ok a) = inl (a, refl)
Result-cases (err e) = inr (e, refl)
