-- ===== src/Protocol/Commands.antt =====
-- include/sqlvdi.h: `enum VDCommands` and the feature flags, against the dispatch of
-- src/vdi_protocol.cpp.
use vdi_cpp_wrapper.Prelude.{ℕ, ◌≡◌, ◌≢◌, ◌↔◌, some, arith}
use vdi_cpp_wrapper.Protocol.Codes.{Command, vdc_close}
use vdi_cpp_wrapper.Protocol.Dispatch.{proceed, close_request, failed_result, dispatch_command}

pub data VdcCommand : Type 0 where
  read write clear_error rewind write_mark skip_marks skip_blocks load get_position set_position
        discard flush snapshot mount_snapshot prepare_to_freeze file_info_begin file_info_end :
      VdcCommand

unfoldable pub code_of : VdcCommand → ℕ
code_of read = 1
code_of write = 2
code_of clear_error = 3
code_of rewind = 4
code_of write_mark = 5
code_of skip_marks = 6
code_of skip_blocks = 7
code_of load = 8
code_of get_position = 9
code_of set_position = 10
code_of discard = 11
code_of flush = 12
code_of snapshot = 13
code_of mount_snapshot = 14
code_of prepare_to_freeze = 15
code_of file_info_begin = 16
code_of file_info_end = 17

-- Every command of the protocol, whatever its size, position and buffer, is dispatched under its
-- own code and is to be executed and completed: none asks to close the session.
pub dispatch_command-code_of :
    (v : VdcCommand) (cmd : Command)
    → cmd.command_code ≡ code_of v
    → dispatch_command (some cmd) ≡ (code_of v, proceed)
unfolding dispatch_command code_of
dispatch_command-code_of v cmd e = ground arith

-- Only a command with the sentinel code asks to close the session, and only the null pointer
-- fails.
pub dispatch_command-closes :
    (cmd : Command)
    → ((dispatch_command (some cmd)).1 ≡ close_request ↔ cmd.command_code ≡ vdc_close)
      × ((dispatch_command (some cmd)).1 ≢ failed_result)
unfolding dispatch_command
dispatch_command-closes cmd = ground arith
