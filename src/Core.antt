-- ===== src/Core.antt =====
-- endpoint/core: the services that the other endpoints share.
pub mod HandleManager
pub mod ContainerKeyCache
pub mod Subscriber
pub mod KeyIdFormatValidator
pub mod Keyring
pub mod Ecies
pub mod DataInnerEncryptor
pub mod DioEncryptor
pub mod KeyEncryptor
pub mod KeyPreparation
pub mod KeyProvider
pub mod KeyRequest
