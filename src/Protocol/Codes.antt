-- ===== src/Protocol/Codes.antt =====
-- include/sqlvdi.h: feature flags, command codes, error codes, `VDConfig` and `VDC_Command`.
use vdi_cpp_wrapper.Prelude.{ℕ, List, Option, Bool, leb}

-- struct _VDConfig; every field is a DWORD.
pub record VdConfig : Type 0 where
  pub device_count : ℕ
  pub features : ℕ
  pub prefix_zone_size : ℕ
  pub alignment : ℕ
  pub soft_file_mark_block_size : ℕ
  pub eom_warning_size : ℕ
  pub server_time_out : ℕ
  pub block_size : ℕ
  pub max_io_depth : ℕ
  pub max_transfer_size : ℕ
  pub buffer_area_size : ℕ

-- struct _VDC_Command. `buffer` is `none` for a null pointer, and otherwise the readable bytes.
pub record Command : Type 0 where
  pub command_code : ℕ
  pub size : ℕ
  pub position : ℕ
  pub buffer : Option (List ℕ)

abbrev pub vdf_default : ℕ
vdf_default = 0x00000000

-- enum VDCommands
abbrev pub vdc_read : ℕ
vdc_read = 1

abbrev pub vdc_write : ℕ
vdc_write = 2

abbrev pub vdc_clear_error : ℕ
vdc_clear_error = 3

abbrev pub vdc_flush : ℕ
vdc_flush = 12

-- The sentinel VDC_Close
abbrev pub vdc_close : ℕ
vdc_close = 99

-- VD_E_CLOSE, VD_E_TIMEOUT and VD_E_EOF, as the 32-bit patterns that an HRESULT is compared by.
abbrev pub vd_e_close : ℕ
vd_e_close = 0x80770001

abbrev pub vd_e_timeout : ℕ
vd_e_timeout = 0x80770003

abbrev pub vd_e_eof : ℕ
vd_e_eof = 0x8077000e

-- FAILED(hr) of the Windows headers: the sign bit of the 32-bit pattern is set.
abbrev pub failed : ℕ → Bool
failed hr = leb 0x80000000 hr
