-- ===== src/Audit.antt =====
-- agent/audit.py: the records of decisions and the append-only store of them.
pub mod Record
pub mod Store
pub mod Reload
pub mod Latest
pub mod Anchor
pub mod Queue
