-- ===== src/Core/Subscriber/Query.antt =====
-- A query's text is read back as the query.
use privmx_endpoint.Common.{
  ok, ◌>>=◌, length, length-append, Bytes, ℕ, ◌<◌, ◌≡◌, refl, sym, ap, ◌∙◌, ◌≢◌, List, [], ◌∷◌,
  ◌++◌, append_assoc, arith,
}
use privmx_endpoint.Utils.Split.Laws.{Lacks, AllLack, joined_by, EndsFull, split_char-joined_by}
use privmx_endpoint.Core.Subscriber.{
  QuerySelector, parse_selector, parse_selectors, parse_parts, parse_query, pop_back, write_path,
  write_selectors, to_subscription_query_string,
}

Lacks-append : (d : ℕ) (xs ys : Bytes) → Lacks d xs → Lacks d ys → Lacks d (xs ++ ys)
Lacks-append d [] ys h k = k
Lacks-append d (x ∷ xs) ys h k = (h.0, Lacks-append d xs ys h.1 k)

Lacks-joined_by :
    (d e : ℕ) (t : Bytes) (ts : List Bytes)
    → e ≢ d
    → AllLack d (t ∷ ts)
    → Lacks d (joined_by e t ts)
Lacks-joined_by d e t [] ne h = h.0
Lacks-joined_by d e t (u ∷ us) ne h =
    Lacks-append d t (e ∷ joined_by e u us) h.0 (ne, Lacks-joined_by d e u us ne h.1)

length-joined_by :
    (d : ℕ) (t : Bytes) (ts : List Bytes) → EndsFull t ts → 0 < length (joined_by d t ts)
length-joined_by d t [] h = h
length-joined_by d t (u ∷ us) h = omega (arith, length-append t (d ∷ joined_by d u us))

pop_back-append : (xs : Bytes) (x : ℕ) → pop_back (xs ++ x ∷ []) ≡ ok xs
unfolding pop_back
pop_back-append [] x = refl
pop_back-append (y ∷ []) x = refl
pop_back-append (y ∷ z ∷ r) x = ap (λ r. r >>= λ rest. ok (y ∷ rest)) (pop_back-append (z ∷ r) x)

write_path-joined_by :
    (p : Bytes) (ps : List Bytes) → write_path (p ∷ ps) ≡ joined_by 47 p ps ++ 47 ∷ []
unfolding write_path
write_path-joined_by p [] = refl
write_path-joined_by p (q ∷ qs) =
    ap (λ l. p ++ 47 ∷ l) (write_path-joined_by q qs)
    ∙ sym (append_assoc p (47 ∷ joined_by 47 q qs) (47 ∷ []))

-- A selector as text.
abbrev selector_text : QuerySelector → Bytes
selector_text s = s.selector_key ++ 61 ∷ s.selector_value

abbrev selector_texts : List QuerySelector → List Bytes
selector_texts [] = []
selector_texts (s ∷ ss) = selector_text s ∷ selector_texts ss

write_selectors-joined_by :
    (s : QuerySelector) (ss : List QuerySelector)
    → write_selectors (s ∷ ss) ≡ joined_by 44 (selector_text s) (selector_texts ss) ++ 44 ∷ []
unfolding write_selectors
write_selectors-joined_by s [] = sym (append_assoc s.selector_key (61 ∷ s.selector_value) (44 ∷ []))
write_selectors-joined_by s (t ∷ ts) =
    ap (λ l. s.selector_key ++ 61 ∷ (s.selector_value ++ 44 ∷ l)) (write_selectors-joined_by t ts)
    ∙ sym (append_assoc s.selector_key (61 ∷ s.selector_value) _)
    ∙ sym (
        append_assoc (selector_text s) (44 ∷ joined_by 44 (selector_text t) (selector_texts ts))
          (44 ∷ []))

-- A selector without the characters that separate, and with a value.
pub record IsPlain (s : QuerySelector) : Type 0 where
  pub key_main : Lacks 124 s.selector_key
  pub key_comma : Lacks 44 s.selector_key
  pub key_equals : Lacks 61 s.selector_key
  pub value_main : Lacks 124 s.selector_value
  pub value_comma : Lacks 44 s.selector_value
  pub value_equals : Lacks 61 s.selector_value
  pub some_value : 0 < length s.selector_value

abbrev pub ArePlain : List QuerySelector → Type 0
ArePlain [] = Unit {0}
ArePlain (s ∷ ss) = IsPlain s × ArePlain ss

text-Lacks :
    (d : ℕ) (s : QuerySelector)
    → 61 ≢ d
    → Lacks d s.selector_key
    → Lacks d s.selector_value
    → Lacks d (selector_text s)
text-Lacks d s ne h k = Lacks-append d s.selector_key (61 ∷ s.selector_value) h (ne, k)

texts-main : (ss : List QuerySelector) → ArePlain ss → AllLack 124 (selector_texts ss)
texts-main [] h = tt
texts-main (s ∷ ss) h =
    (text-Lacks 124 s (λ e. omega (arith, e)) h.0.key_main h.0.value_main, texts-main ss h.1)

texts-comma : (ss : List QuerySelector) → ArePlain ss → AllLack 44 (selector_texts ss)
texts-comma [] h = tt
texts-comma (s ∷ ss) h =
    (text-Lacks 44 s (λ e. omega (arith, e)) h.0.key_comma h.0.value_comma, texts-comma ss h.1)

texts-full :
    (s : QuerySelector) (ss : List QuerySelector)
    → ArePlain (s ∷ ss)
    → EndsFull (selector_text s) (selector_texts ss)
texts-full s [] h = omega (arith, length-append s.selector_key (61 ∷ s.selector_value))
texts-full s (t ∷ ts) h = texts-full t ts h.1

parse_selectors-texts :
    (ss : List QuerySelector) → ArePlain ss → parse_selectors (selector_texts ss) ≡ ok ss
unfolding parse_selectors parse_selector
parse_selectors-texts [] h = refl
parse_selectors-texts (s ∷ ss) h =
    rw
      (
        split_char-joined_by 61 s.selector_key (s.selector_value ∷ [])
            (h.0.key_equals, (h.0.value_equals, tt)) h.0.some_value,
        parse_selectors-texts ss h.1,
      )
      refl

-- A path without the characters that separate, whose last part is not empty.
pub record IsPlainPath (p : Bytes) (ps : List Bytes) : Type 0 where
  pub path_main : AllLack 124 (p ∷ ps)
  pub path_slash : AllLack 47 (p ∷ ps)
  pub path_end : EndsFull p ps

-- The text of a query.
abbrev query_text : Bytes → List Bytes → List QuerySelector → Bytes
query_text p ps [] = joined_by 47 p ps
query_text p ps (s ∷ ss) =
    joined_by 47 p ps ++ 124 ∷ joined_by 44 (selector_text s) (selector_texts ss)

to_string-query_text :
    (p : Bytes) (ps : List Bytes) (ss : List QuerySelector)
    → to_subscription_query_string (record { channel_path = p ∷ ps; selectors = ss })
      ≡ ok (query_text p ps ss)
unfolding to_subscription_query_string
to_string-query_text p ps [] =
    rw (write_path-joined_by p ps, pop_back-append (joined_by 47 p ps) 47)
      (unfold write_selectors in pop_back-append (joined_by 47 p ps) 124)
to_string-query_text p ps (s ∷ ss) =
    rw
      (
        write_path-joined_by p ps,
        pop_back-append (joined_by 47 p ps) 47,
        write_selectors-joined_by s ss,
      )
      (ap pop_back (
          sym (
            append_assoc (joined_by 47 p ps)
              (124 ∷ joined_by 44 (selector_text s) (selector_texts ss)) (44 ∷ [])))
        ∙ pop_back-append (query_text p ps (s ∷ ss)) 44)

parse_query-text :
    (p : Bytes) (ps : List Bytes) (ss : List QuerySelector)
    → IsPlainPath p ps
    → ArePlain ss
    → parse_query (query_text p ps ss) ≡ ok (record { channel_path = p ∷ ps; selectors = ss })
unfolding parse_query parse_parts
parse_query-text p ps [] h k =
    rw
      (
        split_char-joined_by 124 (joined_by 47 p ps) []
            (Lacks-joined_by 124 47 p ps (λ e. omega (arith, e)) h.path_main, tt)
            (length-joined_by 47 p ps h.path_end),
        split_char-joined_by 47 p ps h.path_slash h.path_end,
      )
      refl
parse_query-text p ps (s ∷ ss) h k =
    rw
      (
        split_char-joined_by 124 (joined_by 47 p ps)
            (joined_by 44 (selector_text s) (selector_texts ss) ∷ [])
            (
              Lacks-joined_by 124 47 p ps (λ e. omega (arith, e)) h.path_main,
              (
                Lacks-joined_by 124 44 (selector_text s) (selector_texts ss) (λ e. omega (arith, e))
                    (texts-main (s ∷ ss) k),
                tt,
              ),
            )
            (length-joined_by 44 (selector_text s) (selector_texts ss) (texts-full s ss k)),
        split_char-joined_by 44 (selector_text s) (selector_texts ss) (texts-comma (s ∷ ss) k)
            (texts-full s ss k),
        split_char-joined_by 47 p ps h.path_slash h.path_end,
        parse_selectors-texts (s ∷ ss) k,
      )
      refl

-- A query written as text parses to itself, where no segment of the path contains one of the
-- separators | and /, no key or value of a selector one of |, comma and =, the path's last segment
-- is not empty, and no value is empty.
pub parse_query-to_subscription_query_string :
    (p : Bytes) (ps : List Bytes) (ss : List QuerySelector)
    → IsPlainPath p ps
    → ArePlain ss
    → (to_subscription_query_string (record { channel_path = p ∷ ps; selectors = ss })
        >>= parse_query)
      ≡ ok (record { channel_path = p ∷ ps; selectors = ss })
parse_query-to_subscription_query_string p ps ss h k =
    ap (λ r. r >>= parse_query) (to_string-query_text p ps ss) ∙ parse_query-text p ps ss h k
