-- ===== src/Protocol/Dispatch.antt =====
-- src/vdi_protocol.cpp and src/vdi_protocol.h: what a command's code leads to.
use Prim.Native.String.{String, ◌++◌}
use vdi_cpp_wrapper.Prelude.{
  to_string, ℕ, ◌*◌, List, Option, none, some, Bool, true, false, not, ltb, ◌==◌, if◌then◌else◌,
}
use vdi_cpp_wrapper.Protocol.Codes.{
  Command, vdc_read, vdc_write, vdc_clear_error, vdc_flush, vdc_close,
}

-- enum class CommandResult
pub data CommandResult : Type 0 where
  proceed close_request failed_result : CommandResult

-- constexpr DWORD MAX_SANE_CHUNK_SIZE
abbrev pub max_sane_chunk_size : ℕ
max_sane_chunk_size = 1024 * 1024 * 1024

-- std::string command_code_string(unsigned long code)
unfoldable pub command_code_string : ℕ → String
command_code_string code =
    if code == vdc_read
    then "VDC_Read"
    else if code == vdc_write
    then "VDC_Write"
    else if code == vdc_flush
    then "VDC_Flush"
    else if code == vdc_close
    then "VDC_Close"
    else if code == vdc_clear_error
    then "VDC_ClearError"
    else "UNKNOWN(" ++ to_string code ++ ")"

has_buffer : Option (List ℕ) → Bool
has_buffer none = false
has_buffer (some bytes) = true

-- bool validate_write_command(const VDC_Command*)
unfoldable pub validate_write_command : Option Command → Bool
unfolding has_buffer
validate_write_command none = false
validate_write_command (some cmd) =
    if not (has_buffer cmd.buffer)
    then false
    else if cmd.size == 0
    then false
    else if ltb max_sane_chunk_size cmd.size
    then false
    else true

-- The `switch` of `dispatch_command`, whose other cases only log.
result_of_code : ℕ → CommandResult
result_of_code code =
    if code == vdc_read
    then proceed
    else if code == vdc_write
    then proceed
    else if code == vdc_flush
    then proceed
    else if code == vdc_clear_error
    then proceed
    else if code == vdc_close
    then close_request
    else proceed

-- unsigned long dispatch_command(device, cmd, result&): the code and the result.
unfoldable pub dispatch_command : Option Command → ℕ × CommandResult
unfolding result_of_code
dispatch_command none = (0, failed_result)
dispatch_command (some cmd) = (cmd.command_code, result_of_code cmd.command_code)
