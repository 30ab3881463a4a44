-- ===== src/Http.antt =====
-- http.h and http.cpp
pub mod Out
pub mod Types
pub mod Services
pub mod Handler
pub mod Fields
pub mod Lookup
pub mod Users
pub mod Backend
pub mod Callback
pub mod Dispatch
pub mod Responds
pub mod Request
pub mod Access
pub mod Calls
pub mod Chunk
pub mod Connection
pub mod Server
mod Sample
mod Tests
mod Examples
