-- ===== src/Errors/Messages.antt =====
-- src/error_utils.cpp: the texts of the HRESULT codes.
use Prim.Native.String.{String, ◌++◌}
use vdi_cpp_wrapper.Prelude.{ℕ, ◌==◌, if◌then◌else◌, hex_text}

-- std::string hresult_to_string(unsigned long hr)
unfoldable pub hresult_to_string : ℕ → String
hresult_to_string hr =
    if hr == 0x80770001
    then "VD_E_CLOSE: Session closed normally by SQL Server"
    else if hr == 0x80770002
    then "VD_E_OPEN: Failed to open the device"
    else if hr == 0x80770003
    then "VD_E_TIMEOUT: Operation timed out (SQL Server did not connect)"
    else if hr == 0x80770004
    then "VD_E_ABORT: Operation aborted"
    else if hr == 0x80770005
    then "VD_E_BUSY: Resource busy"
    else if hr == 0x80770006
    then "VD_E_INVALID: Invalid parameter or configuration"
    else if hr == 0x80770007
    then "VD_E_NOTENOUGH: Insufficient resources"
    else if hr == 0x80770008
    then "VD_E_ALREADY: Operation already in progress"
    else if hr == 0x80770009
    then "VD_E_NOTSUPPORTED: Feature or parameter not supported"
    else if hr == 0x8077000A
    then "VD_E_INVALIDATE: Invalidate request"
    else if hr == 0x8077000B
    then "VD_E_OPENFAIL: Device open failed"
    else if hr == 0x8077000C
    then "VD_E_OBJECT: Object not in correct state or wrong call order"
    else if hr == 0x8077000D
    then "VD_E_INTERRUPT: Operation interrupted"
    else if hr == 0x8077000E
    then "VD_E_EOF: End of data stream / no more commands"
    else if hr == 0x80040154
    then "REGDB_E_CLASSNOTREG: COM class not registered (CLSID_MSSQL_ClientVirtualDeviceSet not found)"
    else if hr == 0x800401F0
    then "CO_E_NOTINITIALIZED: CoInitializeEx was not called"
    else if hr == 0x80004002
    then "E_NOINTERFACE: QueryInterface failed — wrong IID or vtable mismatch"
    else if hr == 0x80004001
    then "E_NOTIMPL: Function not implemented"
    else if hr == 0x80070005
    then "E_ACCESSDENIED: Access denied (COM permissions)"
    else if hr == 0x80070057
    then "E_INVALIDARG: Invalid argument"
    else if hr == 0x80004005
    then "E_FAIL: Unspecified failure"
    else if hr == 0x8000FFFF
    then "E_UNEXPECTED: Catastrophic failure"
    else if hr == 0x8007006E
    then "ERROR_OPEN_FAILED: Open operation failed (resource or permission)"
    else if hr == 0x80070103
    then "ERROR_DEVICE_NOT_CONNECTED: Device not available"
    else if hr == 0x8007045A
    then "ERROR_IO_DEVICE: I/O device error (SQL Server IO error 995)"
    else "Unknown HRESULT 0x" ++ hex_text hr
