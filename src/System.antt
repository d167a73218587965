-- ===== src/System.antt =====
-- The application and the library together: what one encrypts, the other decrypts.
pub mod Curves
pub mod Link
pub mod Answer
pub mod Asked
pub mod Erase
pub mod Overwrite
pub mod GetKey
pub mod RoundTrip
pub mod Refused
pub mod Immediate
pub mod FromName
pub mod FromDevice
pub mod SetGet
pub mod EmptySlot
pub mod KeyStore
pub mod Tools
