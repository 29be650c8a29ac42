-- ===== src/Proto/Core/Names.antt =====
-- The names of status codes: faith_status_code_name in faith-proto/src/core/core.c.
use faith.Common.{ℕ, List, text}
use faith.Proto.Status.{
  Status, ok, invalid, already_started, thread, overflow, underflow, io, too_large, bad_frame,
  closed, unsupported_ver, nomem, incomplete, unauthorized, not_found, ssl, crypto, not_equal,
  not_connected, expired, unreachable, bad_envelope, not_started, already_connected, already_exists,
  already_removed, epoll, resync_required,
}

unfoldable pub status_code_name : Status → List ℕ
status_code_name ok = text "FAITH_OK"
status_code_name invalid = text "FAITH_ERR_INVALID"
status_code_name already_started = text "FAITH_ERR_ALREADY_STARTED"
status_code_name thread = text "FAITH_ERR_THREAD"
status_code_name overflow = text "FAITH_ERR_OVERFLOW"
status_code_name underflow = text "FAITH_ERR_UNDERFLOW"
status_code_name io = text "FAITH_ERR_IO"
status_code_name too_large = text "FAITH_ERR_TOO_LARGE"
status_code_name bad_frame = text "FAITH_ERR_BAD_FRAME"
status_code_name closed = text "FAITH_ERR_CLOSED"
status_code_name unsupported_ver = text "FAITH_ERR_UNSUPPORTED_VER"
status_code_name nomem = text "FAITH_ERR_NOMEM"
status_code_name incomplete = text "FAITH_ERR_INCOMPLETE"
status_code_name unauthorized = text "FAITH_ERR_UNAUTHORIZED"
status_code_name not_found = text "FAITH_ERR_NOT_FOUND"
status_code_name ssl = text "FAITH_ERR_SSL"
status_code_name crypto = text "FAITH_ERR_CRYPTO"
status_code_name not_equal = text "FAITH_ERR_NOT_EQUAL"
status_code_name not_connected = text "FAITH_ERR_NOT_CONNECTED"
status_code_name expired = text "FAITH_ERR_EXPIRED"
status_code_name unreachable = text "FAITH_ERR_UNREACHABLE"
status_code_name bad_envelope = text "FAITH_ERR_BAD_ENVELOPE"
status_code_name not_started = text "FAITH_ERR_NOT_STARTED"
status_code_name already_connected = text "FAITH_ERR_ALREADY_CONNECTED"
status_code_name already_exists = text "FAITH_ERR_ALREADY_EXISTS"
status_code_name already_removed = text "FAITH_ERR_ALREADY_REMOVED"
status_code_name epoll = text "FAITH_ERR_EPOLL"
status_code_name resync_required = text "FAITH_ERR_RESYNC_REQUIRED"
