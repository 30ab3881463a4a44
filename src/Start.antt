-- ===== src/Start.antt =====
-- main.cpp: from the command line and the configuration file to the running services.
pub mod Types
pub mod Text
pub mod Settings
pub mod Backends
pub mod Instances
pub mod Run
pub mod Units
pub mod Ensures
pub mod Linked
pub mod Checked
pub mod Known
pub mod Created
pub mod Configured
pub mod Boot
mod Examples
pub mod Done
pub mod Linkable
pub mod Complete
pub mod Signals
