-- ===== src/Net.antt =====
-- net.cpp: the sockets of the HAL over the operating system's.
pub mod Os
pub mod Ownership
pub mod Tcp
pub mod Listener
pub mod Udp
pub mod Taking
pub mod Keeping
pub mod Toy
mod Tests
