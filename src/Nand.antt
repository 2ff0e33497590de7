-- ===== src/Nand.antt =====
-- flash/nand/core/nand.c: operations on a NAND chip, above the chip's own page operations.
pub mod Api
pub mod Chip
pub mod Pages
pub mod Marker
pub mod Torture
pub mod Tests
