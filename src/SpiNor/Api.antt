-- ===== src/SpiNor/Api.antt =====
-- What flash/spi-nor stands on: SPI memory operations (controller/core/include/ufprog/api_spi.h,
-- interface/spi/spi.c) and the timer, and the object `struct spi_nor` of flash/spi-nor/core.h.
use ufprog.Common.{ℕ, List, Option, Bool, Call}

-- `op.data`: its direction, with the bytes that go out or the number that come in.
pub data Payload : Type 0 where
  no_data : Payload
  data_in : ℕ → Payload
  data_out : List ℕ → Payload

-- `struct ufprog_spi_mem_op`: bus widths and lengths of the four phases. `cmd.len` is 1.
pub record SpiOp : Type 0 where
  pub opcode : ℕ
  pub cmd_bw : ℕ
  pub naddr : ℕ
  pub addr : ℕ
  pub addr_bw : ℕ
  pub ndummy : ℕ
  pub dummy_bw : ℕ
  pub payload : Payload
  pub data_bw : ℕ

-- The interface's calls. `exec_op` gives the bytes that came in, and `adjust_op_size` the new
-- `op.data.len`. The status of the bus lock is never read. `timer_us` is `os_get_timer_us`.
pub record SpiMem (W : Type 0) : Type 0 where
  pub supports_op : SpiOp → W → Bool
  pub adjust_op_size : SpiOp → Call W ℕ
  pub exec_op : SpiOp → Call W (List ℕ)
  pub set_speed : ℕ → Call W (Unit {0})
  pub bus_lock : W → W
  pub bus_unlock : W → W
  pub timer_us : W → ℕ × W

-- `struct spi_nor_wp_region`
pub record WpRegion : Type 0 where
  pub base : ℕ
  pub size : ℕ

-- Of `struct spi_nor`, what calls after the initialisation change, and the world.
pub record Snor (W : Type 0) : Type 0 where
  pub curr_die : ℕ
  pub curr_high_addr : ℕ
  pub cmd_buswidth_curr : ℕ
  pub qe_set : Bool
  pub a4b_mode : Bool
  pub wp_regions : Option (List WpRegion)
  pub world : W

-- `struct spi_nor_erase_sector_info` and `struct spi_nor_erase_region`
pub record EraseSectorInfo : Type 0 where
  pub opcode : ℕ
  pub size : ℕ
  pub max_erase_time_ms : ℕ

pub record EraseRegion : Type 0 where
  pub size : ℕ
  pub min_erasesize : ℕ
  pub max_erasesize : ℕ
  pub erasesizes_mask : ℕ

-- `struct spi_nor_reg_desc`
pub record RegDesc : Type 0 where
  pub flags : ℕ
  pub read_opcode : ℕ
  pub write_opcode : ℕ
  pub write_opcode_volatile : ℕ
  pub naddr : ℕ
  pub ndummy_read : ℕ
  pub ndummy_write : ℕ
  pub ndata : ℕ
  pub addr : ℕ

-- `enum snor_reg_access_type` and `struct spi_nor_reg_access`: of `desc` the first `num`.
pub data RegAccessType : Type 0 where
  normal : RegAccessType
  read_multi_write_once : RegAccessType

pub record RegAccess (W : Type 0) : Type 0 where
  pub type : RegAccessType
  pub read_big_endian : Bool
  pub write_big_endian : Bool
  pub desc : List RegDesc
  pub pre_acc : Option (Call (Snor W) (Unit {0}))
  pub post_acc : Option (Call (Snor W) (Unit {0}))

-- Of `struct spi_nor`, what the initialisation sets for good: `param`, `state` and the callbacks
-- of `ext_param`. `read_io_info` and `pp_io_info` are three bus widths each.
pub record IoInfo : Type 0 where
  pub cmd_bw : ℕ
  pub addr_bw : ℕ
  pub data_bw : ℕ

pub record Setup (W : Type 0) : Type 0 where
  pub flags : ℕ
  pub size : ℕ
  pub page_size : ℕ
  pub ndies : ℕ
  pub max_pp_time_ms : ℕ
  pub max_nvcr_pp_time_ms : ℕ
  pub speed_low : ℕ
  pub speed_high : ℕ
  pub naddr : ℕ
  pub cmd_buswidth : ℕ
  pub die_read_granularity : ℕ
  pub read_opcode : ℕ
  pub read_ndummy : ℕ
  pub read_io_info : IoInfo
  pub pp_opcode : ℕ
  pub pp_io_info : IoInfo
  pub sr_r : RegAccess W
  pub erase_info : List EraseSectorInfo
  pub erase_regions : List EraseRegion
  pub data_write_enable : Call (Snor W) (Unit {0})
  pub pre_read_hook : Option (ℕ → ℕ → Call (Snor W) (Unit {0}))
  pub write_page : ℕ → List ℕ → Call (Snor W) ℕ
  pub write_addr_high_byte : Option (ℕ → Call (Snor W) (Unit {0}))
  pub quad_enable : Option (Call (Snor W) (Unit {0}))
  pub dpi_control : Bool → Option (Call (Snor W) (Unit {0}))
  pub qpi_control : Bool → Option (Call (Snor W) (Unit {0}))
  pub setup_dpi : Option (Bool → Call (Snor W) (Unit {0}))
  pub setup_qpi : Option (Bool → Call (Snor W) (Unit {0}))
  pub qpi_dc_shift : ℕ
  pub qpi_set : ℕ
  pub read_dc_valid : Bool
  pub read_dc_idx : ℕ
