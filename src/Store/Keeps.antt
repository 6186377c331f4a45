-- ===== src/Store/Keeps.antt =====
-- Every operation keeps the store sound, whether it returns or throws.
pub mod Steps
pub mod Places
pub mod Joins
pub mod Rules
pub mod Common
pub mod Devices
pub mod Pairing
pub mod Clipboard
pub mod Histories
pub mod Policies
