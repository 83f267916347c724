-- ===== src/Tests/Services.antt =====
-- Handles, cached keys and session tickets.
use privmx_endpoint.Common.{
  ok, bytes_eq, ℕ, ◌<◌, ◌≡◌, refl, ◌↔◌, inl, true, none, some, [], ◌∷◌, arith, ==-false,
}
use privmx_endpoint.Utils.Key.{number_key, bytes_key}
use privmx_endpoint.Utils.ThreadSaveMap
use privmx_endpoint.Utils.VersionNumber.{VersionNumber, less, greater, equal}
use privmx_endpoint.Utils.VersionNumber.Order.{release, IsBefore, release-IsBefore}
use privmx_endpoint.Core.HandleManager.{HandleManager, create_handle, remove_handle}
use privmx_endpoint.Core.HandleManager.Fresh.{
  IsCounting, IsNew, create_handle-IsNew, remove_handle-IsCounting,
}
use privmx_endpoint.Store.FileHandler.Seeking
use privmx_endpoint.Store.FileReadWriteHandle.{FileReadWriteHandle}
use privmx_endpoint.Tests.Handlers.{handler}
use privmx_endpoint.Store.FileHandleManager.{FileHandleManager, read_write_handle, get_file_handle}
use privmx_endpoint.Core.ContainerKeyCache.{
  has_required_ids, is_too_old, missing_ids, contains_id, erase_id, less_than_optional, Cache,
  CachedModuleKeys, get_keys, get_cached_module_keys,
}
use privmx_endpoint.Core.ContainerKeyCache.Laws.{HasKey, get_keys-required}
use privmx_endpoint.Rpc.TicketsManager.{TicketsManager, SessionTicket, use_ticket}
use privmx_endpoint.Rpc.TicketsManager.Laws.{IsOrdered, UseOutcome, use_ticket-earliest}

abbrev manager : HandleManager
manager = record { id = 2; map = (1, 65 ∷ []) ∷ (2, 66 ∷ []) ∷ [] }

manager-IsCounting : IsCounting manager
unfolding ThreadSaveMap.get
manager-IsCounting = record { unused_above = unused }
  where
    unused : (i : ℕ) → 2 < i → ThreadSaveMap.get i manager.map ≡ none
    unused i h =
        rw (==-false i 1 (λ e. omega (arith, h, e)), ==-false i 2 (λ e. omega (arith, h, e))) refl

create_handle-IsNew_example :
    (r : HandleManager × ℕ) × (create_handle 1 (67 ∷ []) manager ≡ some r)
    × IsNew (67 ∷ []) manager r.0 r.1
create_handle-IsNew_example =
    create_handle-IsNew 0 (67 ∷ []) manager manager-IsCounting (omega arith)

remove_handle-IsCounting_example : IsCounting (remove_handle 1 manager)
remove_handle-IsCounting_example = remove_handle-IsCounting 1 manager manager-IsCounting

abbrev keys : CachedModuleKeys
keys = record {
  keys = record { key_id = 1 ∷ []; key_data = [] } ∷ record { key_id = 2 ∷ []; key_data = [] } ∷ [];
  current_key_id = 2 ∷ [];
  module_schema_version = 5;
  module_resource_id = [];
  context_id = [];
  module_version = 4;
}

abbrev cache : Cache
cache = (7 ∷ [], keys) ∷ []

abbrev older : CachedModuleKeys
older = record keys { module_version = 3 }

found : get_keys cache (7 ∷ []) (some ((2 ∷ []) ∷ [])) (some 5) ≡ some keys
unfolding get_keys get_cached_module_keys has_required_ids is_too_old missing_ids contains_id
    erase_id less_than_optional ThreadSaveMap.get bytes_eq
found = refl

get_keys-required_example : HasKey (2 ∷ []) keys.keys
get_keys-required_example =
    get_keys-required cache (7 ∷ []) ((2 ∷ []) ∷ []) (some 5) keys (2 ∷ []) found (inl refl)

abbrev ticket : ℕ → SessionTicket
ticket n = record { id = n ∷ []; master_secret = 9 ∷ [] }

abbrev tickets : TicketsManager
tickets = record {
  tickets = (1000, ticket 1) ∷ (8000, ticket 2) ∷ (9000, ticket 3) ∷ [];
  tickets_ttl = some 9000;
}

tickets-IsOrdered : IsOrdered 0 tickets.tickets
tickets-IsOrdered = (omega arith, (omega arith, (omega arith, tt)))

use_ticket-earliest_example : UseOutcome 2000 tickets (use_ticket 2000 none tickets)
use_ticket-earliest_example = use_ticket-earliest 2000 tickets tickets-IsOrdered

abbrev major_number : ℕ
major_number = 2

abbrev minor_number : ℕ
minor_number = 6

abbrev build_number : ℕ
build_number = 1

release-IsBefore_example :
    ((less (release 2 6 1 []) (release 2 10 0 []) ≡ true) ↔ IsBefore 2 6 1 2 10 0)
    × ((greater (release 2 6 1 []) (release 2 10 0 []) ≡ true) ↔ IsBefore 2 10 0 2 6 1)
    × ((equal (release 2 6 1 []) (release 2 10 0 []) ≡ true)
        ↔ ((major_number ≡ 2) × (minor_number ≡ 10) × (build_number ≡ 0)))
release-IsBefore_example = release-IsBefore 2 6 1 2 10 0 [] []

abbrev two_six : VersionNumber
two_six = record { version_str = []; major = 2; minor = 6; build = none; comment = none }

abbrev first_handle : FileReadWriteHandle
first_handle = record {
  id = 1;
  store_id = 83 ∷ [];
  file_id = 70 ∷ [];
  file = Seeking.create handler;
}

abbrev open_files : FileHandleManager
open_files = record {
  handle_manager = manager;
  label_prefix = 80 ∷ [];
  map = (1, read_write_handle first_handle) ∷ (2, read_write_handle first_handle) ∷ [];
}

first_open : get_file_handle 1 open_files ≡ ok (read_write_handle first_handle)
unfolding get_file_handle ThreadSaveMap.get
first_open = refl
