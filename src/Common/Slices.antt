-- ===== src/Common/Slices.antt =====
-- Pieces of a list by position, and what replacing a piece does to the others.
use Prim.Native.Nat.{ℕ, ◌+◌, ◌-◌, ◌≤◌, min}
use mathlib.Core.Path.{◌≡◌, refl, ap, sym, ◌∙◌}
use mathlib.Core.List.{List, ◌++◌, append-nil, append_assoc}
use native.Mathlib.Omega.{arith}
use privmx_endpoint.Common.Lists.{
  length, take, drop, length-append, length-take, length-drop, take_all, drop_all, drop-drop,
  take-take, take-append, drop-append, drop-take, take-append_eq, drop-append_eq,
}

module _ {ℓ} {A : Type ℓ} where
  -- `n` entries from position `p` on, fewer at the end of the list.
  abbrev pub slice : ℕ → ℕ → List A → List A
  slice p n xs = take n (drop p xs)

  -- `new` written over the list from position `p` on.
  abbrev pub splice : ℕ → List A → List A → List A
  splice p new xs = take p xs ++ (new ++ drop (p + length new) xs)

module _ {ℓ} {A : Type ℓ} where
  pub drop-append_after :
      (p : ℕ) (xs ys : List A) → length xs ≤ p → drop p (xs ++ ys) ≡ drop (p - length xs) ys
  drop-append_after p xs ys h =
      drop-append p xs ys ∙ ap (λ l. l ++ drop (p - length xs) ys) (drop_all p xs h)

  pub drop-append_before :
      (p : ℕ) (xs ys : List A) → p ≤ length xs → drop p (xs ++ ys) ≡ drop p xs ++ ys
  drop-append_before p xs ys h =
      drop-append p xs ys ∙ ap (λ k. drop p xs ++ drop k ys) {y = 0} (omega arith)

  pub take-append_before : (n : ℕ) (xs ys : List A) → n ≤ length xs → take n (xs ++ ys) ≡ take n xs
  take-append_before n xs ys h =
      take-append n xs ys
      ∙ ap (λ k. take n xs ++ take k ys) {y = 0} (omega arith)
      ∙ append-nil (take n xs)

  pub take-append_after :
      (n : ℕ) (xs ys : List A) → length xs ≤ n → take n (xs ++ ys) ≡ xs ++ take (n - length xs) ys
  take-append_after n xs ys h =
      take-append n xs ys ∙ ap (λ l. l ++ take (n - length xs) ys) (take_all n xs h)

  pub slice-append_before :
      (p n : ℕ) (xs ys : List A) → p + n ≤ length xs → slice p n (xs ++ ys) ≡ slice p n xs
  slice-append_before p n xs ys h =
      ap (take n) (drop-append_before p xs ys (omega arith))
      ∙ take-append_before n (drop p xs) ys (omega (arith, length-drop p xs))

  pub slice-take : (p n m : ℕ) (xs : List A) → p + n ≤ m → slice p n (take m xs) ≡ slice p n xs
  slice-take p n m xs h =
      ap (take n) (drop-take p m xs)
      ∙ take-take n (m - p) (drop p xs)
      ∙ ap (λ k. take k (drop p xs)) (omega arith)

  pub slice-slice :
      (p n q m : ℕ) (xs : List A) → q + m ≤ n → slice q m (slice p n xs) ≡ slice (p + q) m xs
  slice-slice p n q m xs h = slice-take q m n (drop p xs) h ∙ ap (take m) (drop-drop q p xs)

  pub length-slice : (p n : ℕ) (xs : List A) → length (slice p n xs) ≡ min n (length xs - p)
  length-slice p n xs = omega (arith, length-take n (drop p xs), length-drop p xs)

  pub length-splice :
      (p : ℕ) (new xs : List A) → p + length new ≤ length xs → length (splice p new xs) ≡ length xs
  length-splice p new xs h = omega (
    arith,
    length-append (take p xs) (new ++ drop (p + length new) xs),
    length-append new (drop (p + length new) xs),
    length-take p xs,
    length-drop (p + length new) xs,
  )

  pub drop-splice_at :
      (p : ℕ) (new xs : List A)
      → p ≤ length xs
      → drop p (splice p new xs) ≡ new ++ drop (p + length new) xs
  drop-splice_at p new xs h =
      drop-append_eq p (take p xs) (new ++ drop (p + length new) xs)
        (omega (arith, length-take p xs))

  pub slice-splice_self :
      (p : ℕ) (new xs : List A) → p ≤ length xs → slice p (length new) (splice p new xs) ≡ new
  slice-splice_self p new xs h =
      ap (take (length new)) (drop-splice_at p new xs h)
      ∙ take-append_eq (length new) new (drop (p + length new) xs) refl

  pub slice-splice_before :
      (p q n : ℕ) (new xs : List A)
      → p ≤ length xs
      → q + n ≤ p
      → slice q n (splice p new xs) ≡ slice q n xs
  slice-splice_before p q n new xs h k =
      slice-append_before q n (take p xs) (new ++ drop (p + length new) xs)
        (omega (arith, length-take p xs))
      ∙ slice-take q n p xs k

  pub slice-splice_after :
      (p q n : ℕ) (new xs : List A)
      → p ≤ length xs
      → p + length new ≤ q
      → slice q n (splice p new xs) ≡ slice q n xs
  slice-splice_after p q n new xs h k = ap (take n) (
      drop-append_after q (take p xs) (new ++ drop (p + length new) xs)
        (omega (arith, length-take p xs))
      ∙ drop-append_after (q - length (take p xs)) new (drop (p + length new) xs)
          (omega (arith, length-take p xs))
      ∙ drop-drop (q - length (take p xs) - length new) (p + length new) xs
      ∙ ap (λ t. drop t xs) (omega (arith, length-take p xs)))

  splice-at_end :
      (n : ℕ) (head b tail : List A)
      → length head ≡ n
      → splice n b (head ++ tail) ≡ head ++ (b ++ drop (length b) tail)
  splice-at_end n head b tail e =
      ap (λ l. l ++ (b ++ drop (n + length b) (head ++ tail))) (take-append_eq n head tail e)
      ∙ ap (λ l. head ++ (b ++ l))
          (drop-append_after (n + length b) head tail (omega (arith, e))
            ∙ ap (λ k. drop k tail) (omega (arith, e)))

  -- One write, and another that begins where it ends, are one write of both.
  pub splice-append :
      (p : ℕ) (a b s : List A)
      → p ≤ length s
      → splice p (a ++ b) s ≡ splice (p + length a) b (splice p a s)
  splice-append p a b s h = sym (
      ap (splice (p + length a) b) (sym (append_assoc (take p s) a (drop (p + length a) s)))
      ∙ splice-at_end (p + length a) (take p s ++ a) b (drop (p + length a) s)
          (omega (arith, length-append (take p s) a, length-take p s))
      ∙ ap (λ l. (take p s ++ a) ++ (b ++ l))
          (drop-drop (length b) (p + length a) s
            ∙ ap (λ k. drop k s) (omega (arith, length-append a b)))
      ∙ append_assoc (take p s) a (b ++ drop (p + length (a ++ b)) s)
      ∙ ap (λ l. take p s ++ l) (sym (append_assoc a b (drop (p + length (a ++ b)) s))))

  -- The same, with a cut behind the second write.
  pub take-splice-append :
      (p : ℕ) (a b s : List A)
      → p ≤ length s
      → take (p + length a) (splice p a s) ++ b ≡ take p s ++ (a ++ b)
  take-splice-append p a b s h =
      ap (λ l. take (p + length a) l ++ b) (sym (append_assoc (take p s) a (drop (p + length a) s)))
      ∙ ap (λ l. l ++ b)
          (take-append_eq (p + length a) (take p s ++ a) (drop (p + length a) s)
            (omega (arith, length-append (take p s) a, length-take p s)))
      ∙ append_assoc (take p s) a b

module _ {ℓ} {A : Type ℓ} (p n at : ℕ) (new xs : List A) (h : p ≤ at)
    (inside : at ≤ length xs) where
  drop-take-at : (ys : List A) → drop p (take at xs ++ ys) ≡ take (at - p) (drop p xs) ++ ys
  drop-take-at ys =
      drop-append_before p (take at xs) ys (omega (arith, length-take at xs))
      ∙ ap (λ l. l ++ ys) (drop-take p at xs)

  head_length : length (take (at - p) (drop p xs)) ≡ at - p
  head_length = omega (arith, length-take (at - p) (drop p xs), length-drop p xs)

  -- The head of a window, up to where the change begins.
  head_of_window : at ≤ p + n → take (at - p) (slice p n xs) ≡ take (at - p) (drop p xs)
  head_of_window k = take-take (at - p) n (drop p xs) ∙ ap (λ t. take t (drop p xs)) (omega arith)

  -- A change inside a window is that change of the window.
  pub slice-splice_window :
      at + length new ≤ p + n → slice p n (splice at new xs) ≡ splice (at - p) new (slice p n xs)
  slice-splice_window k =
      ap (take n) (drop-take-at (new ++ drop (at + length new) xs))
      ∙ take-append_after n (take (at - p) (drop p xs)) _ (omega (arith, head_length))
      ∙ ap (λ t. take (at - p) (drop p xs) ++ t)
          (take-append_after _ new (drop (at + length new) xs) (omega (arith, head_length)))
      ∙ ap (λ t. take (at - p) (drop p xs) ++ (new ++ t)) tail_of_window
      ∙ sym (
          ap (λ t. t ++ (new ++ drop (at - p + length new) (slice p n xs)))
            (head_of_window (omega arith)))
    where
      tail_of_window :
          take (n - length (take (at - p) (drop p xs)) - length new) (drop (at + length new) xs)
          ≡ drop (at - p + length new) (slice p n xs)
      tail_of_window =
          ap (λ t. take (n - length (take (at - p) (drop p xs)) - length new) (drop t xs))
            (omega arith)
          ∙ ap (λ t. take t (drop (p + (at - p + length new)) xs)) (omega (arith, head_length))
          ∙ sym (
              drop-take (at - p + length new) n (drop p xs)
              ∙ ap (take (n - (at - p + length new))) (drop-drop (at - p + length new) p xs))

  -- So is a cut with new contents behind it.
  pub slice-cut_window :
      at + length new ≤ p + n → slice p n (take at xs ++ new) ≡ take (at - p) (slice p n xs) ++ new
  slice-cut_window k =
      ap (take n) (drop-take-at new)
      ∙ take_all n _ (omega (arith, head_length, length-append (take (at - p) (drop p xs)) new))
      ∙ sym (ap (λ t. t ++ new) (head_of_window (omega arith)))
