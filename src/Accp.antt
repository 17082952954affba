-- ===== src/Accp.antt =====
-- src/accp: the federation protocol.
pub mod Dedup
pub mod Cursor
pub mod Seal
