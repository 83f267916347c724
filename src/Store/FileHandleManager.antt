-- ===== src/Store/FileHandleManager.antt =====
-- endpoint/store/src/FileHandle.cpp, class FileHandleManager: the open file handles by number. The
-- numbers come from the connection's handle manager, which other parts share.
pub mod Lookup
use privmx_endpoint.Common.{
  Result, ok, err, ◌>>=◌, invalid_file_handle, invalid_file_read_handle, invalid_file_write_handle,
  Bytes, ℕ, Bool, Option, none, some, [], ◌∷◌, ◌++◌,
}
use privmx_endpoint.Utils.Key.{number_key}
use privmx_endpoint.Utils.ThreadSaveMap.{Map}
use privmx_endpoint.Utils.ThreadSaveMap
use privmx_endpoint.Core.HandleManager.{HandleManager, create_handle}
use privmx_endpoint.Core.HandleManager
use privmx_endpoint.Store.Crypto.{Crypto}
use privmx_endpoint.Store.ChunkDataProvider.{Server}
use privmx_endpoint.Store.ChunkReader.{DecryptionParams}
use privmx_endpoint.Store.FileReadHandle.{FileReadHandle, open_handle}
use privmx_endpoint.Store.FileWriteHandle.{FileWriteHandle}
use privmx_endpoint.Store.FileWriteHandle
use privmx_endpoint.Store.FileReadWriteHandle.{FileReadWriteHandle, FileInfo, FileEncryptionParams}
use privmx_endpoint.Store.FileReadWriteHandle

pub data FileHandle : Type 0 where
  read_handle : FileReadHandle → FileHandle
  write_handle : FileWriteHandle → FileHandle
  read_write_handle : FileReadWriteHandle → FileHandle

pub record FileHandleManager : Type 0 where
  pub handle_manager : HandleManager
  pub label_prefix : Bytes
  pub map : Map ℕ FileHandle

-- The prefix with a colon behind it, unless it is empty, and the kind of the handle.
unfoldable pub label : Bytes → Bytes → Bytes
label [] kind = kind
label (x ∷ xs) kind = (x ∷ xs) ++ 58 ∷ kind

abbrev pub file_read : Bytes
file_read = 70 ∷ 105 ∷ 108 ∷ 101 ∷ 82 ∷ 101 ∷ 97 ∷ 100 ∷ []

abbrev pub file_write : Bytes
file_write = 70 ∷ 105 ∷ 108 ∷ 101 ∷ 87 ∷ 114 ∷ 105 ∷ 116 ∷ 101 ∷ []

abbrev pub file_read_write : Bytes
file_read_write = 70 ∷ 105 ∷ 108 ∷ 101 ∷ 82 ∷ 101 ∷ 97 ∷ 100 ∷ 87 ∷ 114 ∷ 105 ∷ 116 ∷ 101 ∷ []

unfoldable pub insert : ℕ → FileHandle → FileHandleManager → FileHandleManager
insert id handle m = record m { map = ThreadSaveMap.set id handle m.map }

-- The number stays in use where the handle cannot be opened. The fuel is that of `create_handle`.
unfoldable pub create_file_read_handle :
    ℕ
    → Crypto
    → Server
    → DecryptionParams
    → ℕ
    → FileHandleManager
    → Option (FileHandleManager × Result ℕ)
create_file_read_handle fuel c server params server_chunk_size m =
    elim (create_handle fuel (label m.label_prefix file_read) m.handle_manager) [
      | none ↦ none
      | some (hm, id) ↦ elim (open_handle c server id params server_chunk_size) [
        | err e ↦ some (record m { handle_manager = hm }, err e)
        | ok h ↦ some (insert id (read_handle h) (record m { handle_manager = hm }), ok id)
      ]
    ]

unfoldable pub create_file_write_handle :
    ℕ
    → Bytes
    → Bytes
    → Bytes
    → ℕ
    → Bytes
    → Bytes
    → ℕ
    → ℕ
    → Bool
    → FileHandleManager
    → Option (FileHandleManager × ℕ)
create_file_write_handle fuel store_id file_id resource_id size public private chunk_size
      request_size random m =
    elim (create_handle fuel (label m.label_prefix file_write) m.handle_manager) [
      | none ↦ none
      | some (hm, id) ↦ some (
        insert id
            (write_handle (
              FileWriteHandle.create id store_id file_id resource_id size public private chunk_size
                request_size random))
            (record m { handle_manager = hm }),
        id,
      )
    ]

-- The label of this kind of handle has no prefix.
unfoldable pub create_file_read_write_handle :
    ℕ
    → Crypto
    → Server
    → FileInfo
    → FileEncryptionParams
    → ℕ
    → FileHandleManager
    → Option (FileHandleManager × Result ℕ)
create_file_read_write_handle fuel c server info params server_chunk_size m =
    elim (create_handle fuel file_read_write m.handle_manager) [
      | none ↦ none
      | some (hm, id) ↦
          elim (FileReadWriteHandle.open_handle c server id info params server_chunk_size) [
            | err e ↦ some (record m { handle_manager = hm }, err e)
            | ok h ↦
                some (insert id (read_write_handle h) (record m { handle_manager = hm }), ok id)
          ]
    ]

unfoldable pub get_file_handle : ℕ → FileHandleManager → Result FileHandle
get_file_handle id m = elim (ThreadSaveMap.get id m.map) [
  | none ↦ err invalid_file_handle
  | some h ↦ ok h
]

unfoldable pub as_read_handle : FileHandle → Result FileReadHandle
as_read_handle (read_handle h) = ok h
as_read_handle (write_handle h) = err invalid_file_read_handle
as_read_handle (read_write_handle h) = err invalid_file_read_handle

unfoldable pub as_write_handle : FileHandle → Result FileWriteHandle
as_write_handle (read_handle h) = err invalid_file_write_handle
as_write_handle (write_handle h) = ok h
as_write_handle (read_write_handle h) = err invalid_file_write_handle

unfoldable pub get_file_read_handle : ℕ → FileHandleManager → Result FileReadHandle
get_file_read_handle id m = get_file_handle id m >>= as_read_handle

unfoldable pub get_file_write_handle : ℕ → FileHandleManager → Result FileWriteHandle
get_file_write_handle id m = get_file_handle id m >>= as_write_handle

-- A handle of another kind is not an error here: the pointer is empty then.
unfoldable pub as_read_write_handle : FileHandle → Option FileReadWriteHandle
as_read_write_handle (read_handle h) = none
as_read_write_handle (write_handle h) = none
as_read_write_handle (read_write_handle h) = some h

unfoldable pub try_get_file_read_write_handle :
    ℕ → FileHandleManager → Result (Option FileReadWriteHandle)
try_get_file_read_write_handle id m = get_file_handle id m >>= λ h. ok (as_read_write_handle h)

unfoldable pub remove_handle : ℕ → FileHandleManager → FileHandleManager × Result (Unit {0})
remove_handle id m = elim (ThreadSaveMap.get id m.map) [
  | none ↦ (m, err invalid_file_handle)
  | some h ↦ (
    record m {
      map = ThreadSaveMap.erase id m.map;
      handle_manager = HandleManager.remove_handle id m.handle_manager;
    },
    ok tt,
  )
]
