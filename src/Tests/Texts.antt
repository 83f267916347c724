-- ===== src/Tests/Texts.antt =====
-- Texts of records that can be read back, for the keyring of the tests.
use privmx_endpoint.Common.{
  Result, ok, err, ◌>>=◌, undefined_behaviour, length, take, drop, length-append, Bytes, ℕ, zero,
  suc, ◌≤◌, ◌≡◌, refl, sym, ap, ◌∙◌, Option, none, some, List, [], ◌∷◌, ◌++◌, append-nil,
  append_assoc, arith, take-append_eq, drop-append_eq,
}

pub record Code (A : Type 0) : Type 0 where
  pub write : A → Bytes
  pub read : Bytes → Result (A × Bytes)
  pub read-write : (a : A) (rest : Bytes) → read (write a ++ rest) ≡ ok (a, rest)

read_number : Bytes → Result (ℕ × Bytes)
read_number [] = err undefined_behaviour
read_number (n ∷ rest) = ok (n, rest)

pub number : Code ℕ
unfolding read_number
number = record { write = λ n. n ∷ []; read = read_number; read-write = λ n rest. refl }

read_text : Bytes → Result (Bytes × Bytes)
read_text [] = err undefined_behaviour
read_text (n ∷ rest) = ok (take n rest, drop n rest)

read-write_text : (b rest : Bytes) → read_text (length b ∷ (b ++ rest)) ≡ ok (b, rest)
unfolding read_text
read-write_text b rest =
    rw (take-append_eq (length b) b rest refl, drop-append_eq (length b) b rest refl) refl

pub text : Code Bytes
text = record { write = λ b. length b ∷ b; read = read_text; read-write = read-write_text }

abbrev pub read_pair : {A B : Type 0} → Code A → Code B → Bytes → Result ((A × B) × Bytes)
read_pair a b s = a.read s >>= λ p. b.read p.1 >>= λ q. ok ((p.0, q.0), q.1)

read-write_pair :
    {A B : Type 0} (a : Code A) (b : Code B) (x : A) (y : B) (rest : Bytes)
    → read_pair a b ((a.write x ++ b.write y) ++ rest) ≡ ok ((x, y), rest)
read-write_pair a b x y rest =
    rw
      (
        append_assoc (a.write x) (b.write y) rest,
        a.read-write x (b.write y ++ rest),
        b.read-write y rest,
      )
      refl

pub pair : {A B : Type 0} → Code A → Code B → Code (A × B)
pair a b = record {
  write = λ p. a.write p.0 ++ b.write p.1;
  read = read_pair a b;
  read-write = λ p rest. read-write_pair a b p.0 p.1 rest;
}

abbrev write_optional : {A : Type 0} → Code A → Option A → Bytes
write_optional a none = 0 ∷ []
write_optional a (some x) = 1 ∷ a.write x

read_optional : {A : Type 0} → Code A → Bytes → Result (Option A × Bytes)
read_optional a [] = err undefined_behaviour
read_optional a (zero ∷ rest) = ok (none, rest)
read_optional a (suc n ∷ rest) = a.read rest >>= λ p. ok (some p.0, p.1)

read-write_optional :
    {A : Type 0} (a : Code A) (x : Option A) (rest : Bytes)
    → read_optional a (write_optional a x ++ rest) ≡ ok (x, rest)
unfolding read_optional
read-write_optional a none rest = refl
read-write_optional a (some x) rest = rw (a.read-write x rest) refl

pub optional : {A : Type 0} → Code A → Code (Option A)
optional a = record {
  write = write_optional a;
  read = read_optional a;
  read-write = read-write_optional a;
}

write_many : {A : Type 0} → Code A → List A → Bytes
write_many a [] = 0 ∷ []
write_many a (x ∷ xs) = 1 ∷ (a.write x ++ write_many a xs)

-- On the number of bytes that are left.
read_many : {A : Type 0} → Code A → ℕ → Bytes → Result (List A × Bytes)
read_many a fuel [] = err undefined_behaviour
read_many a fuel (zero ∷ rest) = ok ([], rest)
read_many a zero (suc n ∷ rest) = err undefined_behaviour
read_many a (suc fuel) (suc n ∷ rest) =
    a.read rest >>= λ p. read_many a fuel p.1 >>= λ q. ok (p.0 ∷ q.0, q.1)

read-write_many :
    {A : Type 0} (a : Code A) (xs : List A) (fuel : ℕ) (rest : Bytes)
    → length xs ≤ fuel
    → read_many a fuel (write_many a xs ++ rest) ≡ ok (xs, rest)
unfolding read_many write_many
read-write_many a [] fuel rest h = refl
read-write_many a (x ∷ xs) zero rest h = absurd (omega (arith, h))
read-write_many a (x ∷ xs) (suc fuel) rest h =
    rw
      (
        append_assoc (a.write x) (write_many a xs) rest,
        a.read-write x (write_many a xs ++ rest),
        read-write_many a xs fuel rest (omega arith),
      )
      refl

length-write_many : {A : Type 0} (a : Code A) (xs : List A) → length xs ≤ length (write_many a xs)
unfolding write_many
length-write_many a [] = omega arith
length-write_many a (x ∷ xs) =
    omega (arith, length-append (a.write x) (write_many a xs), length-write_many a xs)

pub many : {A : Type 0} → Code A → Code (List A)
many a = record {
  write = write_many a;
  read = λ s. read_many a (length s) s;
  read-write = λ xs rest.
      read-write_many a xs (length (write_many a xs ++ rest)) rest
        (omega (arith, length-append (write_many a xs) rest, length-write_many a xs));
}

-- The code of a type that another one stands for.
abbrev pub read_by : {A B : Type 0} → Code B → (B → A) → Bytes → Result (A × Bytes)
read_by b back s = b.read s >>= λ p. ok (back p.0, p.1)

read-write_by :
    {A B : Type 0} (b : Code B) (to : A → B) (back : B → A)
    → ((a : A) → back (to a) ≡ a)
    → (a : A) (rest : Bytes) → read_by b back (b.write (to a) ++ rest) ≡ ok (a, rest)
read-write_by b to back same a rest = rw (b.read-write (to a) rest, same a) refl

pub by :
    {A B : Type 0} (b : Code B) (to : A → B) (back : B → A) → ((a : A) → back (to a) ≡ a) → Code A
by b to back same = record {
  write = λ a. b.write (to a);
  read = read_by b back;
  read-write = read-write_by b to back same;
}

abbrev pub whole : {A : Type 0} → Code A → Bytes → Result A
whole a s = a.read s >>= λ p. ok p.0

pub whole-write : {A : Type 0} (a : Code A) (x : A) → whole a (a.write x) ≡ ok x
whole-write a x =
    ap (λ s. whole a s) (sym (append-nil (a.write x)))
    ∙ ap (λ r. r >>= λ p. ok p.0) (a.read-write x [])
