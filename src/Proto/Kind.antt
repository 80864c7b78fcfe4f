-- ===== src/Proto/Kind.antt =====
-- The message types of internal/proto/proto.go.
use light_pn.Prelude.{String}

abbrev pub enroll : String
enroll = "enroll"

abbrev pub enroll_ack : String
enroll_ack = "enroll_ack"

abbrev pub register : String
register = "register"

abbrev pub register_ack : String
register_ack = "register_ack"

abbrev pub heartbeat : String
heartbeat = "heartbeat"

abbrev pub peer_add : String
peer_add = "peer_add"

abbrev pub peer_remove : String
peer_remove = "peer_remove"

abbrev pub peer_update : String
peer_update = "peer_update"

abbrev pub ack : String
ack = "ack"

abbrev pub kick : String
kick = "kick"

abbrev pub rotate_wg : String
rotate_wg = "rotate_wg"

abbrev pub rotate_cert : String
rotate_cert = "rotate_cert"

abbrev pub conf_get : String
conf_get = "conf_get"

abbrev pub conf_result : String
conf_result = "conf_result"

abbrev pub svc_action : String
svc_action = "svc_action"

abbrev pub svc_result : String
svc_result = "svc_result"

abbrev pub error : String
error = "error"
