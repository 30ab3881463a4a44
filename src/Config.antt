-- ===== src/Config.antt =====
-- config.h and config.cpp
pub mod Types
pub mod Loader
pub mod Readers
pub mod Parts
pub mod Coin
pub mod Frontend
pub mod Decode
pub mod Follows
pub mod Sample
mod Examples
