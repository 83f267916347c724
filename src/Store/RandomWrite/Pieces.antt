-- ===== src/Store/RandomWrite/Pieces.antt =====
-- A text written over a file is, chunk by chunk, its pieces written over the chunks.
use privmx_endpoint.Common.{
  length, take, drop, length-append, length-take, take-append-drop, Bytes, ℕ, ◌+◌, ◌-◌, ◌≤◌, ◌≡◌,
  sym, ap, ◌∙◌, ◌⊎◌, inl, inr, Bool, true, false, [], ◌++◌, arith, slice, splice,
  slice-append_before, slice-take, slice-splice_before, slice-splice_after, slice-splice_window,
  slice-cut_window, splice-append, take-splice-append,
}
use privmx_endpoint.Store.ChunkDataProvider.Update.{written}

-- Two texts written after one another.
written-append :
    (p : ℕ) (a b s : Bytes) (truncate : Bool)
    → p ≤ length s
    → written s p (a ++ b) truncate ≡ written (splice p a s) (p + length a) b truncate
written-append p a b s true h = sym (take-splice-append p a b s h)
written-append p a b s false h = splice-append p a b s h

splice-nothing : (p : ℕ) (s : Bytes) → splice p [] s ≡ s
splice-nothing p s = ap (λ k. take p s ++ drop k s) (omega arith) ∙ take-append-drop p s

splice_reaches : (p : ℕ) (a s : Bytes) → p ≤ length s → p + length a ≤ length (splice p a s)
splice_reaches p a s h = omega (
  arith,
  length-append (take p s) (a ++ drop (p + length a) s),
  length-append a (drop (p + length a) s),
  length-take p s,
)

-- What is written behind a window leaves it alone.
slice-written_before :
    (start width q : ℕ) (new s : Bytes) (truncate : Bool)
    → q ≤ length s
    → start + width ≤ q
    → slice start width (written s q new truncate) ≡ slice start width s
slice-written_before start width q new s true h k =
    slice-append_before start width (take q s) new (omega (arith, length-take q s))
    ∙ slice-take start width q s k
slice-written_before start width q new s false h k = slice-splice_before q start width new s h k

-- What is written inside a window is written into the window.
slice-written_window :
    (start width q : ℕ) (new s : Bytes) (truncate : Bool)
    → q ≤ length s
    → start ≤ q
    → q + length new ≤ start + width
    → slice start width (written s q new truncate)
      ≡ written (slice start width s) (q - start) new truncate
slice-written_window start width q new s true h k m = slice-cut_window start width q new s k h m
slice-written_window start width q new s false h k m = slice-splice_window start width q new s k h m

-- A window of the file in which a piece begins, where `done` has been written in front of the piece:
-- nothing, or what ends where the window starts.
module _ (start width offset : ℕ) (plain done piece : Bytes) (inside : offset ≤ length plain)
    (first : (done ≡ []) ⊎ (offset + length done ≡ start))
    (front : start ≤ offset + length done) where
  window_before : slice start width (splice offset done plain) ≡ slice start width plain
  window_before = elim first [
    | inl e ↦ rw e (ap (slice start width) (splice-nothing offset plain))
    | inr e ↦ slice-splice_after offset start width done plain inside (omega arith)
  ]

  last_piece :
      (truncate : Bool)
      → offset + length done + length piece ≤ start + width
      → slice start width (written (splice offset done plain) (offset + length done) piece truncate)
        ≡ written (slice start width plain) (offset + length done - start) piece truncate
  last_piece truncate fits =
      slice-written_window start width (offset + length done) piece (splice offset done plain)
        truncate (splice_reaches offset done plain inside) front fits
      ∙ ap (λ l. written l (offset + length done - start) piece truncate) window_before

  -- The last piece of the text.
  pub written-last_piece :
      (truncate : Bool)
      → offset + length done + length piece ≤ start + width
      → slice start width (written plain offset (done ++ piece) truncate)
        ≡ written (slice start width plain) (offset + length done - start) piece truncate
  written-last_piece truncate fits =
      ap (slice start width) (written-append offset done piece plain truncate inside)
      ∙ last_piece truncate fits

  -- A piece that ends where the window ends, before the rest of the text.
  pub written-piece :
      (rest : Bytes) (truncate : Bool)
      → offset + length done + length piece ≡ start + width
      → slice start width (written plain offset (done ++ (piece ++ rest)) truncate)
        ≡ written (slice start width plain) (offset + length done - start) piece false
  written-piece rest truncate fits =
      ap (slice start width) (
        written-append offset done (piece ++ rest) plain truncate inside
        ∙ written-append (offset + length done) piece rest (splice offset done plain) truncate
            reached)
      ∙ slice-written_before start width (offset + length done + length piece) rest
          (splice (offset + length done) piece (splice offset done plain)) truncate
          (splice_reaches (offset + length done) piece (splice offset done plain) reached)
          (omega arith)
      ∙ last_piece false (omega arith)
    where
      reached : offset + length done ≤ length (splice offset done plain)
      reached = splice_reaches offset done plain inside
