-- ===== src/SpiNor/Erase/Ends.antt =====
-- The loop of `ufprog_spi_nor_erase` ends.
