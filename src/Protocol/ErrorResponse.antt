-- ===== src/Protocol/ErrorResponse.antt =====
-- The error response of both services, its type codes, and the statuses (protocol.go, lines 10 to 28).
use Prim.Native.String.{◌++◌}
use swf4go.Prelude.{ℕ, String}

pub record ErrorResponse : Type 0 where
  pub status_code : ℕ
  pub type : String
  pub message : String

abbrev pub status_registered : String
status_registered = "REGISTERED"

abbrev pub status_deprecated : String
status_deprecated = "DEPRECATED"

abbrev pub error_type_unknown_resource_fault : String
error_type_unknown_resource_fault = "com.amazonaws.swf.base.model#UnknownResourceFault"

abbrev pub error_type_stream_not_found : String
error_type_stream_not_found = "ResourceNotFoundException"

-- ErrorResponse.Error
unfoldable pub error_text : ErrorResponse → String
error_text err = err.type ++ ": " ++ err.message
