-- ===== src/Proto/Status.antt =====
-- The status codes of faith-proto/include/faith-proto/core/core.h.

pub data Status : Type 0 where
  ok invalid already_started thread overflow underflow io too_large bad_frame closed : Status
  unsupported_ver nomem incomplete unauthorized not_found ssl crypto not_equal : Status
  not_connected expired unreachable bad_envelope not_started already_connected : Status
  already_exists already_removed epoll resync_required : Status
