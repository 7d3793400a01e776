-- ===== src/Api.antt =====
-- tlshub-api/: the programming interface of the TLSHub kernel module for other programs, and its older copy
-- hypertls.c.
pub mod Wire
pub mod Context
pub mod Service
pub mod Requests
pub mod Hypertls
pub mod Ledger
pub mod Kept
pub mod Leak
pub mod Wait
pub mod Program
pub mod Reply
mod Tests
