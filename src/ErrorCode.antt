-- ===== src/ErrorCode.antt =====
-- common/include/common/error/error_code.h
use project_moon.Base.{Bytes, ℤ, pos}
use project_moon.Base.Text.{codes}

pub data ErrorCode : Type 0 where
  ok account_not_found account_disabled invalid_password session_invalid : ErrorCode
  player_not_found player_busy dungeon_not_found dungeon_locked : ErrorCode
  stamina_not_enough battle_not_found battle_mismatch battle_already_settled : ErrorCode
  invalid_dungeon_id invalid_star storage_error service_unavailable : ErrorCode
  upstream_timeout bad_gateway : ErrorCode

-- `static_cast<int>(code)`
unfoldable pub to_int : ErrorCode → ℤ
to_int ErrorCode.ok = pos 0
to_int account_not_found = pos 1
to_int account_disabled = pos 2
to_int invalid_password = pos 3
to_int session_invalid = pos 4
to_int player_not_found = pos 5
to_int player_busy = pos 6
to_int dungeon_not_found = pos 7
to_int dungeon_locked = pos 8
to_int stamina_not_enough = pos 9
to_int battle_not_found = pos 10
to_int battle_mismatch = pos 11
to_int battle_already_settled = pos 12
to_int invalid_dungeon_id = pos 13
to_int invalid_star = pos 14
to_int storage_error = pos 15
to_int service_unavailable = pos 16
to_int upstream_timeout = pos 17
to_int bad_gateway = pos 18

unfoldable pub to_string : ErrorCode → Bytes
to_string ErrorCode.ok = codes "OK"
to_string account_not_found = codes "ACCOUNT_NOT_FOUND"
to_string account_disabled = codes "ACCOUNT_DISABLED"
to_string invalid_password = codes "INVALID_PASSWORD"
to_string session_invalid = codes "SESSION_INVALID"
to_string player_not_found = codes "PLAYER_NOT_FOUND"
to_string player_busy = codes "PLAYER_BUSY"
to_string dungeon_not_found = codes "DUNGEON_NOT_FOUND"
to_string dungeon_locked = codes "DUNGEON_LOCKED"
to_string stamina_not_enough = codes "STAMINA_NOT_ENOUGH"
to_string battle_not_found = codes "BATTLE_NOT_FOUND"
to_string battle_mismatch = codes "BATTLE_MISMATCH"
to_string battle_already_settled = codes "BATTLE_ALREADY_SETTLED"
to_string invalid_dungeon_id = codes "INVALID_DUNGEON_ID"
to_string invalid_star = codes "INVALID_STAR"
to_string storage_error = codes "STORAGE_ERROR"
to_string service_unavailable = codes "SERVICE_UNAVAILABLE"
to_string upstream_timeout = codes "UPSTREAM_TIMEOUT"
to_string bad_gateway = codes "BAD_GATEWAY"
