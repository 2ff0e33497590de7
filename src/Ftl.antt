-- ===== src/Ftl.antt =====
-- The flash translation layer of flash/nand/core.
pub mod Api
pub mod Dispatch
pub mod Basic
