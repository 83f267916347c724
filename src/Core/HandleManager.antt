-- ===== src/Core/HandleManager.antt =====
-- endpoint/core/src/HandleManager.cpp: numbers for the objects that a caller of the library holds.
-- The counter is an atomic 64-bit word, and each call runs without another in between.
pub mod Fresh
use privmx_endpoint.Common.{
  if◌then◌else◌, u64, Result, ok, err, no_handle_found, Bytes, ℕ, zero, suc, ◌+◌, Option, none,
  some,
}
use privmx_endpoint.Utils.Key.{number_key}
use privmx_endpoint.Utils.ThreadSaveMap.{Map}
use privmx_endpoint.Utils.ThreadSaveMap

pub record HandleManager : Type 0 where
  pub id : ℕ
  pub map : Map ℕ Bytes

-- The counter is taken as a word of 64 bits without a sign; from 2^63 on the code does not define it.
-- `createHandle` calls itself while the number is in use; the fuel bounds the calls.
unfoldable pub create_handle : ℕ → Bytes → HandleManager → Option (HandleManager × ℕ)
create_handle zero label m = none
create_handle (suc fuel) label m =
    let id = u64 (m.id + 1) in
    let again = create_handle fuel label (record m { id = id }) in
    if ThreadSaveMap.has id m.map
    then again
    else some (record { id = id; map = ThreadSaveMap.set id label m.map }, id)

unfoldable pub get_handle_label : HandleManager → ℕ → Result Bytes
get_handle_label m id = elim (ThreadSaveMap.get id m.map) [
  | none ↦ err no_handle_found
  | some label ↦ ok label
]

unfoldable pub remove_handle : ℕ → HandleManager → HandleManager
remove_handle id m = record m { map = ThreadSaveMap.erase id m.map }
