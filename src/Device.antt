-- ===== src/Device.antt =====
-- src/device: the keyboard controller; the other devices copy between SDL, files and their registers.
pub mod Keyboard
