-- ===== src/Store/FileHandleManager/Lookup.antt =====
-- Which handle a number stands for.
use privmx_endpoint.Common.{
  Option-cases, two64, ok, err, ◌>>=◌, invalid_file_handle, invalid_file_read_handle, Bytes, ℕ, suc,
  ◌+◌, ◌<◌, ◌≡◌, refl, ap, ◌∙◌, ◌≢◌, inl, inr, Bool, some, arith, ==-false,
}
use privmx_endpoint.Utils.Key.{number_key}
use privmx_endpoint.Utils.ThreadSaveMap.{get, erase}
use privmx_endpoint.Utils.ThreadSaveMap.Laws.{get-set_same, get-erase_same, get-erase_other}
use privmx_endpoint.Core.HandleManager
use privmx_endpoint.Core.HandleManager.Fresh.{IsCounting, create_handle-IsNew}
use privmx_endpoint.Store.FileWriteHandle.{create}
use privmx_endpoint.Store.FileHandleManager.{
  FileHandleManager, FileHandle, write_handle, label, file_write, insert, create_file_write_handle,
  get_file_handle, get_file_read_handle, get_file_write_handle, as_read_handle, as_write_handle,
  remove_handle,
}

get-insert :
    (id : ℕ) (h : FileHandle) (m : FileHandleManager) → get_file_handle id (insert id h m) ≡ ok h
unfolding insert get_file_handle
get-insert id h m = rw (get_file_handle, get-set_same id h m.map) refl

get-found :
    (id : ℕ) (m : FileHandleManager) (h : FileHandle)
    → get_file_handle id m ≡ ok h
    → (k : FileHandle) × (get id m.map ≡ some k)
unfolding get_file_handle
get-found id m h e = elim (Option-cases (get id m.map)) [
  | inl n ↦ absurd (ground (arith, e, n))
  | inr k ↦ k
]

-- For a number that stands for a handle and another number, removeHandle succeeds; the number is
-- then refused, and the other stands for what it stood for.
pub get_file_handle-remove_handle :
    (id other : ℕ) (m : FileHandleManager) (h : FileHandle)
    → get_file_handle id m ≡ ok h
    → other ≢ id
    → ((remove_handle id m).1 ≡ ok tt)
      × (get_file_handle id (remove_handle id m).0 ≡ err invalid_file_handle)
      × (get_file_handle other (remove_handle id m).0 ≡ get_file_handle other m)
unfolding remove_handle get_file_handle
get_file_handle-remove_handle id other m h e ne = (
  ap (λ r. r.1) removed,
  ap (λ r. get_file_handle id r.0) removed ∙ rw (get_file_handle, get-erase_same id m.map) refl,
  ap (λ r. get_file_handle other r.0) removed
      ∙ rw (get_file_handle, get-erase_other id other m.map (==-false other id ne)) refl,
)
  where
    removed : remove_handle id m ≡ (
      record m {
        map = erase id m.map;
        handle_manager = HandleManager.remove_handle id m.handle_manager;
      },
      ok tt,
    )
    removed = rw (remove_handle, (get-found id m h e).1) refl

-- Where no number above the handle manager's counter is in use and the counter is not at its end,
-- createFileWriteHandle returns within one call of createHandle; its number then stands for the
-- new write handle and is refused for a read handle, and again no number above the counter is in
-- use.
pub get_file_write_handle-create_file_write_handle :
    (fuel : ℕ) (store_id file_id resource_id : Bytes) (size : ℕ) (public private : Bytes)
    (chunk_size request_size : ℕ) (random : Bool) (m : FileHandleManager)
    → IsCounting m.handle_manager
    → m.handle_manager.id + 1 < two64
    → (r : FileHandleManager × ℕ) × (create_file_write_handle
          (suc fuel)
          store_id
          file_id
          resource_id
          size
          public
          private
          chunk_size
          request_size
          random
          m
        ≡ some r)
      × (get_file_write_handle r.1 r.0
          ≡ ok (
              create r.1 store_id file_id resource_id size public private chunk_size request_size
                random))
      × (get_file_read_handle r.1 r.0 ≡ err invalid_file_read_handle)
      × IsCounting r.0.handle_manager
unfolding create_file_write_handle get_file_write_handle get_file_read_handle as_read_handle
    as_write_handle insert get_file_handle
get_file_write_handle-create_file_write_handle fuel store_id file_id resource_id size public private
      chunk_size request_size random m h fits =
    let new = create_handle-IsNew fuel (label m.label_prefix file_write) m.handle_manager h fits in
    let opened : FileHandle = write_handle (
      create new.0.1 store_id file_id resource_id size public private chunk_size request_size
        random) in
    (
      (insert new.0.1 opened (record m { handle_manager = new.0.0 }), new.0.1),
      rw (create_file_write_handle, new.1) refl,
      ap (λ r. r >>= as_write_handle)
          (get-insert new.0.1 opened (record m { handle_manager = new.0.0 })),
      ap (λ r. r >>= as_read_handle)
          (get-insert new.0.1 opened (record m { handle_manager = new.0.0 })),
      new.2.counting,
    )
