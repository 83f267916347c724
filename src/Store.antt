-- ===== src/Store.antt =====
-- endpoint/store: chunked encrypted files, read and written through a server.
pub mod Crypto
pub mod ChunkEncryptor
pub mod HmacList
pub mod ChunkDataProvider
pub mod ChunkReader
pub mod FileReader
pub mod ChunkBufferedStream
pub mod ChunkStreamer
pub mod FileReadHandle
pub mod FileWriteHandle
pub mod FileReadWriteHandle
pub mod FileHandleManager
pub mod UpdateChanges
pub mod RandomWrite
pub mod FileHandler
