-- ===== src/NodeRpc.antt =====
-- noderpc.cpp: a tool that sends one request to a coin's node.
pub mod Types
pub mod Commands
pub mod Options
pub mod Run
pub mod Split
pub mod Answered
pub mod Sends
pub mod Checked
mod Examples
