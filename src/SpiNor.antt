-- ===== src/SpiNor.antt =====
-- flash/spi-nor: the driver of SPI-NOR flash chips, over the SPI memory operations of
-- interface/spi/spi.c.
pub mod Api
pub mod Regs
pub mod Control
pub mod RegWrite
pub mod Wp
pub mod Tests
pub mod Erase
pub mod Data
