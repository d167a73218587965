-- ===== src/Host.antt =====
-- The userland library, libkpl/.
pub mod Result
pub mod Intmem
pub mod ErrorOr
pub mod Sodium
pub mod Crypto
pub mod Messages
pub mod Transport
pub mod Answer
pub mod Client
pub mod Kpl
pub mod Devices
pub mod Connect
pub mod CApi
pub mod Tools
pub mod Usb
pub mod Tcp
