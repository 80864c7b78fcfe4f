-- ===== src/Proto/Code.antt =====
-- The error codes of internal/proto/proto.go.
use light_pn.Prelude.{String}

abbrev pub token_expired : String
token_expired = "TOKEN_EXPIRED"

abbrev pub token_used : String
token_used = "TOKEN_USED"

abbrev pub auth_failed : String
auth_failed = "AUTH_FAILED"

abbrev pub cert_revoked : String
cert_revoked = "CERT_REVOKED"

abbrev pub version_unsupported : String
version_unsupported = "VERSION_UNSUPPORTED"

abbrev pub ipam_exhausted : String
ipam_exhausted = "IPAM_EXHAUSTED"

abbrev pub unknown_type : String
unknown_type = "UNKNOWN_TYPE"

abbrev pub internal : String
internal = "INTERNAL"
