-- ===== src/Host.antt =====
-- native/wrapper: the C ABI of zimodem_host.cpp over the HAL.
pub mod LineConfig
pub mod Process
pub mod Abi
pub mod Worker
pub mod Lifetime
pub mod Callbacks
pub mod Exports
pub mod Histories
pub mod Always
pub mod Same
pub mod Bytes
pub mod Again
pub mod Wake
pub mod Octets
pub mod Threads
pub mod Calls
pub mod Ending
pub mod Told
mod Tests
