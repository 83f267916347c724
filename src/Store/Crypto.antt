-- ===== src/Store/Crypto.antt =====
-- The cryptographic service behind `privmx::crypto::Crypto`. The drivers that compute it are other
-- libraries: the functions are a parameter, and `IsSound` states what the store relies on.
use privmx_endpoint.Common.{
  Result, ok, length, take, replicate, length-append, length-take, length-replicate, Bytes, ℕ, zero,
  suc, ◌+◌, ◌-◌, ◌%◌, ◌<◌, ◌≡◌, refl, ap, ◌∙◌, [], ◌∷◌, ◌++◌, arith, take-append_eq,
}

pub record Crypto : Type 0 where
  pub sha256 : Bytes → Bytes
  pub hmac_sha256 : Bytes → Bytes → Bytes
  -- Arguments: data, key, initialisation vector.
  pub aes_encrypt : Bytes → Bytes → Bytes → Bytes
  pub aes_decrypt : Bytes → Bytes → Bytes → Result Bytes

-- HMAC-SHA-256 has 32 bytes; AES-256-CBC with PKCS#7 pads to the next multiple of 16 and is undone
-- by decryption under the same key and vector.
pub record IsSound (c : Crypto) : Type 0 where
  pub hmac_length : (key msg : Bytes) → length (c.hmac_sha256 key msg) ≡ 32
  pub cipher_length :
      (msg key iv : Bytes) → length (c.aes_encrypt msg key iv) ≡ length msg + (16 - length msg % 16)
  pub decrypts : (msg key iv : Bytes) → c.aes_decrypt (c.aes_encrypt msg key iv) key iv ≡ ok msg

-- A service that meets the laws: the digest keeps 32 bytes, the cipher pads only.
unfoldable pub pad : ℕ → Bytes
pad n = replicate (16 - n % 16) (16 - n % 16)

unfoldable pub last : ℕ → Bytes → ℕ
last d [] = d
last d (x ∷ xs) = last x xs

unfoldable pub digest : Bytes → Bytes
digest m = take 32 (m ++ replicate 32 0)

abbrev pub plain_crypto : Crypto
unfolding pad last digest
plain_crypto = record {
  sha256 = digest;
  hmac_sha256 = λ key msg. digest (key ++ msg);
  aes_encrypt = λ msg key iv. msg ++ pad (length msg);
  aes_decrypt = λ msg key iv. ok (take (length msg - last 0 msg) msg);
}

last-replicate : (n v : ℕ) → last v (replicate n v) ≡ v
unfolding last
last-replicate zero v = refl
last-replicate (suc n) v = last-replicate n v

last-padded : (d n v : ℕ) (xs : Bytes) → 0 < n → last d (xs ++ replicate n v) ≡ v
unfolding last
last-padded d zero v xs h = absurd (omega arith)
last-padded d (suc n) v [] h = last-replicate n v
last-padded d (suc n) v (x ∷ xs) h = last-padded x (suc n) v xs h

length-digest : (m : Bytes) → length (digest m) ≡ 32
unfolding digest
length-digest m = omega (
  arith,
  length-take 32 (m ++ replicate 32 0),
  length-append m (replicate 32 0),
  length-replicate {A = ℕ} 32 0,
)

length-pad : (n : ℕ) → length (pad n) ≡ 16 - n % 16
unfolding pad
length-pad n = length-replicate (16 - n % 16) (16 - n % 16)

unpad :
    (msg : Bytes)
    → take
        (length (msg ++ pad (length msg)) - last 0 (msg ++ pad (length msg)))
        (msg ++ pad (length msg))
      ≡ msg
unfolding pad
unpad msg =
    ap (λ n. take n (msg ++ pad (length msg)))
      (omega (
        arith,
        length-append msg (pad (length msg)),
        length-pad (length msg),
        last-padded 0 (16 - length msg % 16) (16 - length msg % 16) msg (omega arith),
      ))
    ∙ take-append_eq (length msg) msg (pad (length msg)) refl

pub plain_crypto-IsSound : IsSound plain_crypto
unfolding plain_crypto digest
plain_crypto-IsSound = record {
  hmac_length = λ key msg. length-digest (key ++ msg);
  cipher_length =
      λ msg key iv. omega (arith, length-append msg (pad (length msg)), length-pad (length msg));
  decrypts = λ msg key iv. ap ok (unpad msg);
}
