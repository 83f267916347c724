-- ===== src/Common/Strings.antt =====
-- `std::string` as a list of bytes.
use Prim.Native.Nat.{ℕ, ◌+◌, ◌≤◌}
use mathlib.Core.Path.{◌≡◌, refl, ap, sym, ◌∙◌}
use mathlib.Core.Bool.{Bool, true, false, ◌&&◌}
use mathlib.Core.List.{List, [], ◌∷◌, ◌++◌, append_assoc}
use native.Mathlib.Omega.{arith}
use privmx_endpoint.Common.Tests.{◌==◌, leb, if◌then◌else◌, le→leb}
use privmx_endpoint.Common.Lists.{length, take, drop, length-append, take-append_eq, drop-append_eq}
use privmx_endpoint.Common.Outcome.{Result, ok, err, out_of_range}

abbrev pub Bytes : Type 0
Bytes = List ℕ

unfoldable pub bytes_eq : Bytes → Bytes → Bool
bytes_eq [] [] = true
bytes_eq [] (y ∷ ys) = false
bytes_eq (x ∷ xs) [] = false
bytes_eq (x ∷ xs) (y ∷ ys) = (x == y) && bytes_eq xs ys

pub bytes_eq_refl : (xs : Bytes) → bytes_eq xs xs ≡ true
unfolding bytes_eq
bytes_eq_refl [] = refl
bytes_eq_refl (x ∷ xs) = ground (arith, bytes_eq_refl xs)

pub bytes_eq→eq : (xs ys : Bytes) → bytes_eq xs ys ≡ true → xs ≡ ys
unfolding bytes_eq
bytes_eq→eq [] [] h = refl
bytes_eq→eq [] (y ∷ ys) h = ground arith
bytes_eq→eq (x ∷ xs) [] h = ground arith
bytes_eq→eq (x ∷ xs) (y ∷ ys) h = ground (arith, bytes_eq→eq xs ys)

pub bytes_eq_sym : (xs ys : Bytes) → bytes_eq xs ys ≡ bytes_eq ys xs
unfolding bytes_eq
bytes_eq_sym [] [] = refl
bytes_eq_sym [] (y ∷ ys) = refl
bytes_eq_sym (x ∷ xs) [] = refl
bytes_eq_sym (x ∷ xs) (y ∷ ys) = ground (arith, bytes_eq_sym xs ys)

-- `s.substr(pos, n)`, which throws where `pos` lies behind the end.
unfoldable pub substr : Bytes → ℕ → ℕ → Result Bytes
substr s pos n = if leb pos (length s) then ok (take n (drop pos s)) else err out_of_range

-- `s.substr(pos)`.
unfoldable pub substr_from : Bytes → ℕ → Result Bytes
substr_from s pos = if leb pos (length s) then ok (drop pos s) else err out_of_range

pub substr-eq : (s : Bytes) (pos n : ℕ) → pos ≤ length s → substr s pos n ≡ ok (take n (drop pos s))
unfolding substr
substr-eq s pos n h = rw (le→leb pos (length s) h)

pub substr_from-eq : (s : Bytes) (pos : ℕ) → pos ≤ length s → substr_from s pos ≡ ok (drop pos s)
unfolding substr_from
substr_from-eq s pos h = rw (le→leb pos (length s) h)

pub substr-prefix : (xs ys : Bytes) (n : ℕ) → length xs ≡ n → substr (xs ++ ys) 0 n ≡ ok xs
substr-prefix xs ys n e = substr-eq (xs ++ ys) 0 n (omega arith) ∙ ap ok (take-append_eq n xs ys e)

pub substr_from-prefix : (xs ys : Bytes) (n : ℕ) → length xs ≡ n → substr_from (xs ++ ys) n ≡ ok ys
substr_from-prefix xs ys n e =
    substr_from-eq (xs ++ ys) n (omega (arith, length-append xs ys, e))
    ∙ ap ok (drop-append_eq n xs ys e)

pub substr-middle :
    (xs ys zs : Bytes) (p n : ℕ)
    → length xs ≡ p
    → length ys ≡ n
    → substr (xs ++ (ys ++ zs)) p n ≡ ok ys
substr-middle xs ys zs p n e f =
    substr-eq (xs ++ (ys ++ zs)) p n (omega (arith, length-append xs (ys ++ zs), e))
    ∙ ap (λ l. ok (take n l)) (drop-append_eq p xs (ys ++ zs) e)
    ∙ ap ok (take-append_eq n ys zs f)

pub substr_from-second :
    (xs ys zs : Bytes) (n : ℕ)
    → length xs + length ys ≡ n
    → substr_from (xs ++ (ys ++ zs)) n ≡ ok zs
substr_from-second xs ys zs n e =
    ap (λ l. substr_from l n) (sym (append_assoc xs ys zs))
    ∙ substr_from-prefix (xs ++ ys) zs n (length-append xs ys ∙ e)
