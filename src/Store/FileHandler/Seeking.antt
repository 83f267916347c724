-- ===== src/Store/FileHandler/Seeking.antt =====
-- endpoint/store/src/FileHandler.cpp, class FileHandlerImpl: a position for reading and one for writing.
pub mod Positions
use privmx_endpoint.Common.{
  ltb, if◌then◌else◌, u64, Result, ok, err, pos_out_of_bounds, length, Bytes, ℕ, ◌+◌, Bool,
}
use privmx_endpoint.Store.Crypto.{Crypto}
use privmx_endpoint.Store.RandomWrite.{FileHandler, Remote, FileMeta, EncKey}
use privmx_endpoint.Store.ChunkReader.{DecryptionParams}
use privmx_endpoint.Store.FileHandler.{get_file_size}
use privmx_endpoint.Store.FileHandler

pub record FileHandlerImpl : Type 0 where
  pub file : FileHandler
  pub read_pos : ℕ
  pub write_pos : ℕ

-- The constructor.
unfoldable pub create : FileHandler → FileHandlerImpl
create file = record { file = file; read_pos = 0; write_pos = 0 }

unfoldable pub size : FileHandlerImpl → ℕ
unfolding get_file_size
size h = get_file_size h.file

unfoldable pub seekg : ℕ → FileHandlerImpl → FileHandlerImpl × Result (Unit {0})
unfolding get_file_size
seekg pos h =
    if ltb (get_file_size h.file) pos
    then (h, err pos_out_of_bounds)
    else (record h { read_pos = pos }, ok tt)

unfoldable pub seekp : ℕ → FileHandlerImpl → FileHandlerImpl × Result (Unit {0})
unfolding get_file_size
seekp pos h =
    if ltb (get_file_size h.file) pos
    then (h, err pos_out_of_bounds)
    else (record h { write_pos = pos }, ok tt)

-- The position moves by the bytes that were read.
unfoldable pub advance :
    FileHandlerImpl → FileHandler × Result Bytes → FileHandlerImpl × Result Bytes
advance h (file, err e) = (record h { file = file }, err e)
advance h (file, ok buf) =
    (record h { file = file; read_pos = u64 (h.read_pos + length buf) }, ok buf)

unfoldable pub read : Crypto → Remote → ℕ → FileHandlerImpl → FileHandlerImpl × Result Bytes
unfolding advance
read c r n h = advance h (FileHandler.read c r h.file h.read_pos n)

unfoldable pub write :
    Crypto
    → Remote
    → (ℕ → Bytes)
    → Bytes
    → Bool
    → FileHandlerImpl
    → FileHandlerImpl × Result (Unit {0})
write c r ivs chunk truncate h =
    let done = FileHandler.write c r ivs h.file h.write_pos chunk truncate in
    elim done.1 [
      | err e ↦ (record h { file = done.0 }, err e)
      | ok u ↦ (record h { file = done.0; write_pos = u64 (h.write_pos + length chunk) }, ok tt)
    ]

unfoldable pub sync :
    Crypto
    → Remote
    → FileMeta
    → DecryptionParams
    → EncKey
    → FileHandlerImpl
    → FileHandlerImpl × Result (Unit {0})
sync c r file_meta params key h =
    let done = FileHandler.sync c r file_meta params key h.file in
    (record h { file = done.0 }, done.1)
