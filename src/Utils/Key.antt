-- ===== src/Utils/Key.antt =====
-- Types that can stand as keys of a `std::map`: `same` is the test that neither key is smaller.
use privmx_endpoint.Common.{
  ◌==◌, ==_iff, ==_refl, Bytes, bytes_eq, bytes_eq_refl, bytes_eq→eq, ℕ, ◌≡◌, Bool, true,
}

pub record Key (K : Type 0) : Type 0 where
  pub same : K → K → Bool
  pub same→eq : (a b : K) → same a b ≡ true → a ≡ b
  pub same-refl : (a : K) → same a a ≡ true

abbrev pub same : {K : Type 0} ⦃k : Key K⦄ → K → K → Bool
same ⦃k⦄ = k.same

instance abbrev pub number_key : Key ℕ
number_key = record {
  same = λ a b. a == b;
  same→eq = λ a b h. (==_iff a b).0 h;
  same-refl = λ a. ==_refl a;
}

instance abbrev pub bytes_key : Key Bytes
bytes_key = record { same = bytes_eq; same→eq = bytes_eq→eq; same-refl = bytes_eq_refl }
