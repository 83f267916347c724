-- ===== src/Rpc/Ciphers/Blocks.antt =====
-- prf_tls12 returns the blocks of the expansion that RFC 5246 describes, joined.
use privmx_endpoint.Common.{
  lt→ltb, le→ltb, length, take, length-append, take_all, take-append, Bytes, ℕ, zero, suc, ◌-◌, ◌≤◌,
  ◌<◌, ◌≡◌, refl, ap, ◌∙◌, [], ◌++◌, append_assoc, arith,
}
use privmx_endpoint.Store.Crypto.{Crypto}
use privmx_endpoint.Store.Crypto
use privmx_endpoint.Rpc.Ciphers.{prf_rounds, prf_tls12}

-- A(i) of the RFC, and the code of A(i + 1) and the seed.
abbrev pub chained : Crypto → Bytes → Bytes → ℕ → Bytes
chained c key seed zero = seed
chained c key seed (suc i) = c.hmac_sha256 key (chained c key seed i)

abbrev pub block : Crypto → Bytes → Bytes → ℕ → Bytes
block c key seed i = c.hmac_sha256 key (chained c key seed (suc i) ++ seed)

module _ (c : Crypto) (v : Crypto.IsSound c) (key seed : Bytes) where
  pub length-block : (i : ℕ) → length (block c key seed i) ≡ 32
  length-block i = v.hmac_length key (chained c key seed (suc i) ++ seed)

  -- A round that is needed adds the next block.
  prf_rounds-more :
      (n fuel i : ℕ) (result : Bytes)
      → length result < n
      → prf_rounds c key seed n (suc fuel) (chained c key seed i) result
        ≡ prf_rounds c key seed n fuel (chained c key seed (suc i)) (result ++ block c key seed i)
  unfolding prf_rounds
  prf_rounds-more n fuel i result h = rw (lt→ltb (length result) n h) refl

  prf_rounds-enough :
      (n fuel : ℕ) (a result : Bytes)
      → n ≤ length result
      → prf_rounds c key seed n (suc fuel) a result ≡ result
  unfolding prf_rounds
  prf_rounds-enough n fuel a result h = rw (le→ltb (length result) n h) refl

  abbrev two : Bytes
  two = block c key seed 0 ++ block c key seed 1

  abbrev three : Bytes
  three = two ++ block c key seed 2

  length-two : length two ≡ 64
  length-two = omega (
    arith,
    length-append (block c key seed 0) (block c key seed 1),
    length-block 0,
    length-block 1,
  )

  length-three : length three ≡ 96
  length-three = omega (arith, length-append two (block c key seed 2), length-two, length-block 2)

  pub prf_tls12-two : prf_tls12 c key seed 48 ≡ block c key seed 0 ++ take 16 (block c key seed 1)
  unfolding prf_tls12
  prf_tls12-two =
      ap (take 48) (
        prf_rounds-more 48 47 0 [] (omega arith)
        ∙ prf_rounds-more 48 46 1 (block c key seed 0) (omega (arith, length-block 0))
        ∙ prf_rounds-enough 48 45 (chained c key seed 2) two (omega (arith, length-two)))
      ∙ take-append 48 (block c key seed 0) (block c key seed 1)
      ∙ ap (λ xs. xs ++ take (48 - length (block c key seed 0)) (block c key seed 1))
          (take_all 48 (block c key seed 0) (omega (arith, length-block 0)))
      ∙ ap (λ n. block c key seed 0 ++ take n (block c key seed 1))
          {x = 48 - length (block c key seed 0)} {y = 16} (omega (arith, length-block 0))

  pub prf_tls12-four :
      prf_tls12 c key seed 128
      ≡ block c key seed 0 ++ (block c key seed 1 ++ (block c key seed 2 ++ block c key seed 3))
  unfolding prf_tls12
  prf_tls12-four =
      ap (take 128) (
        prf_rounds-more 128 127 0 [] (omega arith)
        ∙ prf_rounds-more 128 126 1 (block c key seed 0) (omega (arith, length-block 0))
        ∙ prf_rounds-more 128 125 2 two (omega (arith, length-two))
        ∙ prf_rounds-more 128 124 3 three (omega (arith, length-three))
        ∙ prf_rounds-enough 128 123 (chained c key seed 4) (three ++ block c key seed 3)
            (omega (arith, length-append three (block c key seed 3), length-three, length-block 3)))
      ∙ take_all 128 (three ++ block c key seed 3)
          (omega (arith, length-append three (block c key seed 3), length-three, length-block 3))
      ∙ append_assoc two (block c key seed 2) (block c key seed 3)
      ∙ append_assoc (block c key seed 0) (block c key seed 1)
          (block c key seed 2 ++ block c key seed 3)
