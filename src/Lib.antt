-- ===== src/Lib.antt =====
-- ufprog, the universal flash programmer: the storage core below its command line tools.
--
-- The part modelled is the stack that turns requests for logical pages into operations on a raw NAND
-- chip. A caller asks flash/nand/core/ftl.c to read, write or erase a range of a partition. It checks
-- the range and hands it to a translation layer, here the basic one of flash/nand/core/ftl-basic.c,
-- which skips bad and reserved blocks. That layer asks a bad block table, flash/nand/core/bbt.c, which
-- passes the question on to a driver, here the table in memory of flash/nand/core/bbt-ram.c. The table
-- keeps two bits for each block in a bitmap of common/bitmap.c and asks flash/nand/core/nand.c for the
-- bad block marker of a block that it does not know. nand.c performs page operations with the chip's
-- function pointers and its ECC engine. common/bitops.c, common/buffdiff.c and
-- common/crc32.c are helpers.
--
-- Beside it stands the driver of SPI-NOR chips in flash/spi-nor. Its calls build SPI memory operations
-- for interface/spi/spi.c. spi-nor.c reads, writes and erases; before each operation it sets speed, bus
-- width, address register and write enable latch, and after it polls the status register. regs.c reads
-- and writes registers by their descriptions, and wp.c translates the protection bits of the status
-- register to regions of the chip, by tables.
--
-- Files:
--   Common and below: names of the libraries passed on, Boolean tests, lists measured by native
--     numbers, `&`, `|` and `^` as arithmetic, the status codes of common/include/ufprog/status_code.h, calls that
--     change a state and may fail.
--   Bitops: common/bitops.c and is_power_of_2 of common/include/ufprog/bits.h.
--   Bitmap: common/bitmap.c. Bitmap.Inv has its representation invariant, Bitmap.Field, Read and Store
--     the bit fields of a cell.
--   Buffdiff: common/buffdiff.c; word loads in Buffdiff.Word, the loops in Buffdiff.Loops.
--   Crc32: common/crc32.c; Crc32.Bitwise has the checksum taken bit by bit.
--   Nand.Api: the interface of a chip that the tables and layers above it take as a parameter, a record
--     of functions on a world that holds the chip, the bus and the memory of buffers.
--   Nand.Chip: what lies below nand.c. Nand.Pages: ufprog_nand_read_page(s), _write_page(s) and
--     _erase_block. Nand.Marker: _check_bbm, _write_bbm, _checkbad, _markbad. Nand.Torture:
--     _torture_block.
--   Bbt: flash/nand/core/bbt.c; Bbt.Ram: flash/nand/core/bbt-ram.c.
--   Ftl.Api: partitions and callbacks of flash/nand/core/include/ufprog/api_ftl.h. Ftl.Dispatch and
--     Ftl.Dispatch.Pages: flash/nand/core/ftl.c. Ftl.Basic: flash/nand/core/ftl-basic.c, with Place
--     (ftl_basic_get_block_page), Transfer (what reads and writes share), Read, Retry (the loop with
--     retries that writes and erases share), Write and Erase.
--   SpiNor.Api: the operations of interface/spi/spi.c and the timer as a parameter, a record of functions
--     on a world, and struct spi_nor, in a part that calls change and one that they do not.
--     SpiNor.Regs and SpiNor.RegWrite: flash/spi-nor/regs.c. SpiNor.Control: write enabling, waiting, bus
--     width and the address register; SpiNor.Erase: erasing; SpiNor.Data: reading and writing, with
--     SpiNor.Data.Aai for word programming; all of flash/spi-nor/spi-nor.c. SpiNor.Wp: flash/spi-nor/wp.c and wp.h, with one file for each group of
--     tables.
--   Tests modules hold runs on small chips.
--
-- Conventions. A C function that changes state takes the state and returns it with its status; a value
-- handed back through a pointer is a further result. Pointers that the code only tests against NULL are
-- taken as valid, and those tests have no counterpart; function pointers that may be NULL are options.
-- Log messages are left out. Integers are native numbers, with `% 2 ^ w` where the code computes in w
-- bits; pointers are not cut to a width. An argument of a
-- function is a number of the width of its C type, and theorems say so where it matters. `size_t` and `uintptr_t` have 64 bits. Granting of memory is a
-- parameter of the functions of the NAND part that allocate; the list of regions of SpiNor.Wp is always
-- granted. `*retcount` is given as 0 where the code leaves it alone.
--
-- Loops. A loop over blocks recurses on the number of blocks left before the end of the partition, which
-- each round lowers; the loops of writes and erases recurse on that number and, where a round stays on
-- its block, on the retries, of which there are three. Loops over pages recurse on the pages left. The
-- fill loop of bitmap_reset has as much fuel as bits, and takes at least one bit a round. So no loop
-- runs out of fuel. The loops of flash/spi-nor have fuel of their own: erasing, reading and writing a
-- round for each byte left, and polling one for each microsecond before the end of the wait and two more,
-- which is enough as soon as the timer moves on with each reading. A reading loop goes on for ever if the
-- interface takes no bytes of an operation; a hypothesis says that it takes at least one. A loop that
-- goes on, or that runs past its buffer because more bytes were taken than there are, gives none; reading
-- and the page writers turn that to UFP_FAIL. ufprog_spi_nor_write takes the number of rounds as a parameter and gives none
-- itself, and its theorems hold for every number that is at least that of the bytes.
--
-- Hypotheses on chips. `left_over` is what an uninitialised variable holds, for a register read whose
-- failure the code overlooks. IsRegister is a chip whose register keeps what is written to it, IsLocked one
-- whose register does not change, IsReader an interface and chip that give the bytes of a memory to operations that stay within a die, IsProgrammed and IsWordWise
-- ones that take the bytes of a memory by page or by word, IsClock a
-- timer that moves on, IsReadyFrom a chip that is busy up to some time. IsUniform is a chip of one erase
-- region, with blocks that are multiples of a power of two; Supported says which sectors it can erase.
--
-- Not modelled: loading of plugins and freeing of objects; page layouts, chip IDs, OTP and bad block
-- marker configuration in nand.c; ONFI; SPI NAND; the probing of SPI NOR chips, SFDP and OTP, and the
-- tables of parts and their page writers; the SPI interface, a parameter here; controllers, which are USB
-- and serial I/O; the NMBM layer, which is a library of another project; configuration, logs, console and
-- the command line programs.
pub mod Common
pub mod Bitops
pub mod Bitmap
pub mod Buffdiff
pub mod Crc32
pub mod Nand
pub mod Bbt
pub mod Ftl
pub mod SpiNor
