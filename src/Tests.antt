-- ===== src/Tests.antt =====
-- Runs of the model at concrete inputs, and each property of the library applied at one.
mod Toy
mod Device
mod Exchange
mod Answers
mod Io
mod Library
mod Loop
mod Usb
mod Tcp
mod Objects
mod Devices
mod Store
mod System
mod Tools
