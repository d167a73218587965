-- ===== src/App.antt =====
-- The device application, app/src/.
pub mod Consts
pub mod Sdk
pub mod Storage
pub mod Curve
pub mod Device
pub mod Instrs
pub mod Status
pub mod Approve
pub mod Main
pub mod Session
pub mod Menu
pub mod Loop
pub mod Io
