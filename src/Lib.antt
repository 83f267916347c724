-- ===== src/Lib.antt =====
-- privmx-endpoint: end-to-end encrypted files, and the services behind them, as functional models
-- with the theorems that make them correct.
--
-- The parts. A file is cut into chunks. Each is encrypted under a key of its own and carries a
-- checksum; the checksums make a list with a checksum of its own. The server stores the encrypted
-- chunks joined, and is asked for them in server chunks of another size.
--
-- - Common: Boolean tests, lists and pieces of lists, exceptions as values, code with a state that may
--   throw (State), machine words (u32, u64, sub64 with their wrap-around), strings as lists of bytes.
-- - Utils.ThreadSaveMap: utils/include/privmx/utils/ThreadSaveMap.hpp, over the types of Utils.Key.
-- - Utils.Split: the functions `split` of utils/src/Utils.cpp.
-- - Utils.VersionNumber: utils/src/VersionNumber.cpp.
-- - Core.KeyIdFormatValidator: endpoint/core/src/KeyIdFormatValidator.cpp and the classes derived from
--   it in endpoint/thread/src, endpoint/store/src and endpoint/inbox/src.
-- - Core.HandleManager, Core.ContainerKeyCache and Core.Subscriber: the files of those names under
--   endpoint/core/src.
-- - Core.KeyRequest and Core.KeyProvider: the classes KeyDecryptionAndVerificationRequest and
--   KeyProvider of endpoint/core/src/KeyProvider.cpp, with endpoint/core/src/UserVerifier.cpp. The keys
--   that a request has gathered are decrypted (KeyProvider.Decryption) and checked (KeyProvider.Checks),
--   and carry the failure where a check fails.
--   Core.KeyPreparation has the operations of KeyProvider that prepare keys for users.
-- - Core.KeyEncryptor, Core.DioEncryptor and Core.DataInnerEncryptor: the encryptors of those names under
--   endpoint/core/src/encryptors; Core.Ecies: crypto/base/src/EciesEncryptor.cpp. Their private and
--   public keys, Base64 and JSON are the parameter Core.Keyring.
-- - Rpc.TicketsManager: rpc/base/src/tls/TicketsManager.cpp.
-- - Rpc.Connection: rpc/base/src/tls/ConnectionBase.cpp, with the ciphers and the derivation of keys of
--   Rpc.Ciphers. Records are sealed and written here, opened by Rpc.Connection.Reading and handed on by
--   the loop of Rpc.Connection.Process; its other modules hold what the two sides do together.
-- - Store.Crypto: the cryptographic service, a parameter, and a service that meets its laws.
-- - Store.ChunkEncryptor and Store.HmacList: endpoint/store/src/encryptors/fileData.
-- - Store.ChunkDataProvider, Store.ChunkReader, Store.FileReader: the way from the server to the
--   reader, in the files of those names under endpoint/store/src.
-- - Store.ChunkBufferedStream and Store.ChunkStreamer: the way of an upload, in the files of those
--   names under endpoint/store/src.
-- - Store.FileReadHandle, Store.FileWriteHandle, Store.FileReadWriteHandle and
--   Store.FileHandleManager: the classes of those names in endpoint/store/src/FileHandle.cpp.
-- - Store.UpdateChanges, Store.RandomWrite and Store.FileHandler: endpoint/store/src/FileHandler.cpp. A
--   write makes the changed chunks (RandomWrite), joins them to changes and those to requests
--   (UpdateChanges); FileHandler is the whole of a write and a read, and FileHandler.Seeking the class
--   FileHandlerImpl over it.
-- - Tests: the theorems at concrete inputs.
--
-- The correspondence. A class is a record of its fields, a method a function of the record with
-- the method's name; a method that may throw returns a result, and one that changes the object
-- first and throws later returns both. Objects that are shared through pointers stand in one
-- record (ChunkReader.Files). What the language leaves undefined is an exception of its own. The
-- server, the random vectors, the clock and the callbacks are arguments. The requests that a
-- server has accepted are kept in a list beside the fields of the streamer and of the file
-- handler.
--
-- Bounds and fuel. Words of 32 and 64 bits wrap; the theorems name the lengths that have to fit.
-- Signed 64-bit sizes, versions and times are natural numbers. Loops over chunks are recursion on
-- the number of rounds, and `batches` on the number of changes, which is at least the number of
-- requests. `split_loop` runs on the number of searches, at most one more than the text has bytes,
-- and `read_lines` on the number of lines, at most the length of the text. `split_chunks` runs on
-- the length of the file, which is at least the number of chunks, and `create_handle` on a number
-- of calls, of which one is enough while no number above the counter is in use. The loop `process`
-- runs on the number of records, one more than the input has, and `prf_rounds` on the number of
-- bytes asked for, of which a round makes 32.
--
-- Not modelled: the encryptors of meta data and of modules, the API classes, the other endpoints
-- (threads, inboxes, key-value databases, events, streams), sockets and handshakes, the ciphers, and
-- the language bindings, which mostly call the server and other libraries.
pub mod Common
pub mod Utils
pub mod Core
pub mod Rpc
pub mod Store
pub mod Tests
