-- ===== src/Tlshub.antt =====
-- capture/src/tlshub_client.c: the user-space client of the TLSHub kernel module.
pub mod Netlink
pub mod Wire
pub mod Client
pub mod Scripted
mod Tests
