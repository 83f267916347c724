-- ===== src/Core/HandleManager/Fresh.antt =====
-- The numbers given out are in use by nobody else.
use privmx_endpoint.Common.{
  two64, u64-eq_of_lt, ok, Bytes, ℕ, suc, ◌+◌, ◌<◌, ◌≡◌, refl, ap, ◌∙◌, ◌≢◌, none, some, arith,
  ℕ_discrete, ==-false,
}
use privmx_endpoint.Utils.Key.{number_key}
use privmx_endpoint.Utils.ThreadSaveMap.{get, set, erase}
use privmx_endpoint.Utils.ThreadSaveMap.Laws.{
  get-set_same, get-set_other, get-erase_same, get-erase_other, has-get,
}
use privmx_endpoint.Core.HandleManager.{
  HandleManager, create_handle, get_handle_label, remove_handle,
}

-- No number above the counter is in use, and the counter has not come to its end.
pub record IsCounting (m : HandleManager) : Type 0 where
  pub unused_above : (i : ℕ) → m.id < i → get i m.map ≡ none

-- What a new handle changes: its number was free, it has the label, and the others keep theirs.
pub record IsNew (label : Bytes) (m m' : HandleManager) (id : ℕ) : Type 0 where
  pub was_free : get id m.map ≡ none
  pub labelled : get_handle_label m' id ≡ ok label
  pub others : (i : ℕ) → i ≢ id → get_handle_label m' i ≡ get_handle_label m i
  pub counting : IsCounting m'

-- Where no number above the counter is in use and the counter is not at its end, createHandle
-- returns within one call: the number was free, its handle has the label, the other handles keep
-- theirs, and again no number above the counter is in use.
pub create_handle-IsNew :
    (fuel : ℕ) (label : Bytes) (m : HandleManager)
    → IsCounting m
    → m.id + 1 < two64
    → (r : HandleManager × ℕ) × (create_handle (suc fuel) label m ≡ some r) × IsNew label m r.0 r.1
unfolding create_handle get_handle_label
create_handle-IsNew fuel label m h small = (
  (record { id = m.id + 1; map = set (m.id + 1) label m.map }, m.id + 1),
  rw (u64-eq_of_lt (m.id + 1) small, has-get (m.id + 1) m.map, free) refl,
  record {
    was_free = free;
    labelled = rw (get_handle_label, get-set_same (m.id + 1) label m.map) refl;
    others = λ i ne.
        rw (get_handle_label, get-set_other (m.id + 1) i label m.map (==-false i (m.id + 1) ne))
          refl;
    counting = record {
      unused_above = λ i lt.
          get-set_other (m.id + 1) i label m.map (==-false i (m.id + 1) (omega arith))
          ∙ h.unused_above i (omega arith);
    };
  },
)
  where
    free : get (m.id + 1) m.map ≡ none
    free = h.unused_above (m.id + 1) (omega arith)

-- The same for a removal.
pub remove_handle-IsCounting :
    (id : ℕ) (m : HandleManager) → IsCounting m → IsCounting (remove_handle id m)
unfolding remove_handle
remove_handle-IsCounting id m h = record { unused_above = unused }
  where
    unused : (i : ℕ) → m.id < i → get i (erase id m.map) ≡ none
    unused i lt = elim (ℕ_discrete i id) [
      | yes e ↦ ap (λ n. get n (erase id m.map)) e ∙ get-erase_same id m.map
      | no ne ↦ get-erase_other id i m.map (==-false i id ne) ∙ h.unused_above i lt
    ]
