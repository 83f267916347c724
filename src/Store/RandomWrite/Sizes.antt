-- ===== src/Store/RandomWrite/Sizes.antt =====
-- The size that a write computes is the length of the written plaintext.
use native.Mathlib.Nat.{mul-div-le}
use privmx_endpoint.Common.{
  if◌then◌else◌, ==_iff, two64, u64, sub64, u64-eq_of_lt, sub64-eq, length, take, drop,
  length-append, length-take, length-drop, Bytes, ℕ, ◌+◌, ◌-◌, ◌*◌, ◌≤◌, ◌<◌, min, max, ◌≡◌, refl,
  ap, ◌∙◌, ◌⊎◌, inl, inr, Bool, true, false, List, [], ◌∷◌, ◌++◌, arith, dec_le, ℕ_discrete,
  length-slice, ==-false,
}
use privmx_endpoint.Store.Crypto.{Crypto}
use privmx_endpoint.Store.ChunkDataProvider.Coherence.{mul-le}
use privmx_endpoint.Store.ChunkDataProvider.Update.{written}
use privmx_endpoint.Store.ChunkReader.Refinement.{StoredFile}
use privmx_endpoint.Store.UpdateChanges.{UpdateChunkData}
use privmx_endpoint.Store.RandomWrite.{size_change, new_plain_size}
use privmx_endpoint.Store.RandomWrite.Rounds.{Spans}
use privmx_endpoint.Store.RandomWrite.Chunks.{IsMade, AreMade, with_text}

pub length-written :
    (s : Bytes) (p : ℕ) (new : Bytes) (truncate : Bool)
    → p ≤ length s
    → length (written s p new truncate)
      ≡ (if truncate then p + length new else max (length s) (p + length new))
length-written s p new true h = omega (arith, length-append (take p s) new, length-take p s)
length-written s p new false h = omega (
  arith,
  length-append (take p s) (new ++ drop (p + length new) s),
  length-append new (drop (p + length new) s),
  length-drop (p + length new) s,
  length-take p s,
)

-- A word grows to the value whose difference is added.
u64-add-sub64 : (a b : ℕ) → a < two64 → b < two64 → u64 (b + sub64 a b) ≡ a
unfolding u64 sub64
u64-add-sub64 a b h k = omega (arith, h, k)

-- A chunk of `width` bytes from `at` on changes from that of a file of `old` bytes to that of one of `new`.
u64-chunk_change :
    (old new at width : ℕ)
    → at ≤ new
    → (old ≤ new) ⊎ (at + width ≤ new)
    → max old (at + width) < two64
    → u64 (max old at + sub64 (min width (new - at)) (min width (old - at)))
      ≡ max old at + (min width (new - at) - min width (old - at))
u64-chunk_change old new at width h k fits =
    ap (λ t. u64 (max old at + t))
      (sub64-eq (min width (new - at)) (min width (old - at)) grows (omega (arith, fits)))
    ∙ u64-eq_of_lt _ (omega (arith, fits))
  where
    grows : min width (old - at) ≤ min width (new - at)
    grows = elim k [ inl e ↦ omega (arith, e) | inr e ↦ omega (arith, e) ]

reaches_of :
    (truncate : Bool) (old end : ℕ) {new : ℕ}
    → new ≡ (if truncate then end else max old end)
    → end ≤ new
reaches_of true old end e = omega (arith, e)
reaches_of false old end e = omega (arith, e)

-- The last chunk makes the size that of the new file.
u64-last_change :
    (truncate : Bool) (old new at width end : ℕ)
    → at ≤ end
    → end ≤ at + width
    → old < two64
    → end < two64
    → new ≡ (if truncate then end else max old end)
    → u64 (
        max old at
        + (if truncate
            then sub64 (u64 (at + min width (new - at))) (max old (u64 at))
            else sub64 (min width (new - at)) (min width (old - at))))
      ≡ new
u64-last_change true old new at width end h k l m e =
    rw
      (
        u64-eq_of_lt at (omega (arith, h, m)),
        u64-eq_of_lt (at + min width (new - at)) (omega (arith, e, h, k, m)),
      )
      (u64-add-sub64 (at + min width (new - at)) (max old at) (omega (arith, e, h, k, m))
          (omega (arith, h, l, m))
        ∙ omega (arith, e, h, k))
u64-last_change false old new at width end h k l m e = elim (dec_le (at + width) old) [
  | yes far ↦
      ap (λ t. u64 (max old at + t))
        (sub64-eq (min width (new - at)) (min width (old - at)) (omega (arith, e))
          (omega (arith, e, l, m, h)))
      ∙ u64-eq_of_lt _ (omega (arith, e, l, m, h, k))
      ∙ omega (arith, e, h, k)
  | no near ↦
      ap (λ t. u64 (max old at + t))
        (sub64-eq (min width (new - at)) (min width (old - at)) (omega (arith, e))
          (omega (arith, e, l, m, h)))
      ∙ u64-eq_of_lt _ (omega (arith, e, l, m, h, k))
      ∙ omega (arith, e, h, k)
]

module _ (c : Crypto) (f : StoredFile) (ivs : ℕ → Bytes) (n offset start stop : ℕ) (to_send : Bytes)
    (truncate : Bool) (v : Spans f n offset start stop to_send) (old_fits : length f.plain < two64)
    (new_fits : offset + length to_send < two64) where
  abbrev f' : StoredFile
  f' = with_text f offset to_send truncate

  abbrev w : ℕ
  w = f.encryptor.chunk_size

  -- The size as it is in front of chunk `i`.
  abbrev so_far : ℕ → ℕ
  so_far i = max (length f.plain) (w * i)

  new_length : length f'.plain ≡ (
      if truncate then offset + length to_send else max (length f.plain) (offset + length to_send))
  new_length = length-written f.plain offset to_send truncate v.inside

  new_reaches : offset + length to_send ≤ length f'.plain
  new_reaches = reaches_of truncate _ _ new_length

  -- A chunk that is not the last.
  middle_size :
      (i : ℕ) (u : UpdateChunkData)
      → IsMade c f f' ivs stop truncate i u
      → i < stop
      → u64 (so_far i + u.plainfile_size_change) ≡ so_far (i + 1)
  unfolding size_change
  middle_size i u m h =
      rw
        (
          m.change,
          ==-false i stop (omega (arith, h)),
          length-slice (w * i) w f'.plain,
          length-slice (w * i) w f.plain,
        )
        (u64-chunk_change (length f.plain) (length f'.plain) (w * i) w (omega (arith, full))
            (inr full)
            (omega (arith, v.reaches, mul-le w (i + 1) stop (omega (arith, h)), old_fits, new_fits))
          ∙ omega (arith, full))
    where
      full : w * i + w ≤ length f'.plain
      full = omega (arith, new_reaches, v.reaches, mul-le w (i + 1) stop (omega (arith, h)))

  last_size :
      (i : ℕ) (u : UpdateChunkData)
      → IsMade c f f' ivs stop truncate i u
      → i ≡ stop
      → u64 (so_far i + u.plainfile_size_change) ≡ length f'.plain
  unfolding size_change
  last_size i u m e =
      rw
        (
          m.change,
          (==_iff i stop).1 e,
          length-slice (w * i) w f'.plain,
          length-slice (w * i) w f.plain,
          turned,
        )
        (u64-last_change truncate (length f.plain) (length f'.plain) (w * i) w
          (offset + length to_send) (omega (arith, v.reaches, ap (λ k. w * k) e))
          (omega (arith, v.covers, ap (λ k. w * k) e)) old_fits new_fits new_length)
    where
      turned : i * w ≡ w * i
      turned = omega arith

  none_behind :
      (i size : ℕ) (us : List UpdateChunkData)
      → stop < i
      → AreMade c f f' ivs stop truncate i us
      → new_plain_size size us ≡ size
  unfolding new_plain_size
  none_behind i size [] h made = refl
  none_behind i size (u ∷ us) h made = absurd (omega (arith, h, made.0.inside))

  size_from :
      (i : ℕ) (us : List UpdateChunkData)
      → AreMade c f f' ivs stop truncate i us
      → i ≤ stop
      → new_plain_size (so_far i) us ≡ length f'.plain
  unfolding new_plain_size
  size_from i [] made h = absurd (omega (arith, made, h))
  size_from i (u ∷ us) made h = elim (ℕ_discrete i stop) [
    | yes e ↦
        ap (λ k. new_plain_size k us) (last_size i u made.0 e)
        ∙ none_behind (i + 1) (length f'.plain) us (omega (arith, e)) made.1
    | no ne ↦
        ap (λ k. new_plain_size k us) (middle_size i u made.0 (omega (arith, h, ne)))
        ∙ size_from (i + 1) us made.1 (omega (arith, h, ne))
  ]

  -- The changes of the size add up to the length of the written plaintext.
  pub new_plain_size-length :
      (us : List UpdateChunkData)
      → AreMade c f f' ivs stop truncate start us
      → new_plain_size (length f.plain) us ≡ length f'.plain
  new_plain_size-length us made =
      ap (λ k. new_plain_size k us) {x = length f.plain}
        (omega (arith, v.inside, mul-div-le offset w, ap (λ k. w * k) v.begins))
      ∙ size_from start us made v.ordered
