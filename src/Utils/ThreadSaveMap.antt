-- ===== src/Utils/ThreadSaveMap.antt =====
-- utils/include/privmx/utils/ThreadSaveMap.hpp: a `std::map` behind a lock. Each operation is one step
-- under the lock. The map is a list of pairs with distinct keys; their order is not seen.
pub mod Laws
use privmx_endpoint.Common.{
  if◌then◌else◌, length, ℕ, Bool, true, false, Option, none, some, List, [], ◌∷◌,
}
use privmx_endpoint.Utils.Key.{Key, same}

abbrev pub Map : Type 0 → Type 0 → Type 0
Map K V = List (K × V)

module _ {K V : Type 0} ⦃k : Key K⦄ where
  unfoldable pub get : K → Map K V → Option V
  get key [] = none
  get key (p ∷ m) = if same key p.0 then some p.1 else get key m

  unfoldable pub has : K → Map K V → Bool
  has key [] = false
  has key (p ∷ m) = if same key p.0 then true else has key m

  unfoldable pub set : K → V → Map K V → Map K V
  set key value [] = (key, value) ∷ []
  set key value (p ∷ m) =
      let rest = set key value m in if same key p.0 then (key, value) ∷ m else p ∷ rest

  unfoldable pub erase : K → Map K V → Map K V
  erase key [] = []
  erase key (p ∷ m) = let rest = erase key m in if same key p.0 then rest else p ∷ rest

  unfoldable pub update_value_if_exist : K → (V → V) → Map K V → Map K V
  unfolding get set
  update_value_if_exist key f m = elim (get key m) [ none ↦ m | some v ↦ set key (f v) m ]

  unfoldable pub size : Map K V → ℕ
  size m = length m

  unfoldable pub clear : Map K V → Map K V
  clear m = []
