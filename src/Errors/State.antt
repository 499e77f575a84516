-- ===== src/Errors/State.antt =====
-- include/error_utils.h: the session's states and their names.
use Prim.Native.String.{String}
use vdi_cpp_wrapper.Prelude.{Bool, true, false}

-- enum class SessionState
pub data SessionState : Type 0 where
  init connected streaming flushing closed failed_state : SessionState

-- const char* session_state_to_string(SessionState)
unfoldable pub session_state_to_string : SessionState → String
session_state_to_string init = "INIT"
session_state_to_string connected = "CONNECTED"
session_state_to_string streaming = "STREAMING"
session_state_to_string flushing = "FLUSHING"
session_state_to_string closed = "CLOSED"
session_state_to_string failed_state = "FAILED"

-- The comparisons `state_ == SessionState::…` of the client.
abbrev pub is_init : SessionState → Bool
is_init init = true
is_init _ = false

abbrev pub is_connected : SessionState → Bool
is_connected connected = true
is_connected _ = false

abbrev pub is_streaming : SessionState → Bool
is_streaming streaming = true
is_streaming _ = false

abbrev pub is_flushing : SessionState → Bool
is_flushing flushing = true
is_flushing _ = false

abbrev pub is_closed : SessionState → Bool
is_closed closed = true
is_closed _ = false
