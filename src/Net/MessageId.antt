-- ===== src/Net/MessageId.antt =====
-- common/include/common/net/message_id.h
pub mod Laws
use project_moon.Base.{ℕ, Option, none, some, Bytes, ◌==◌, nat_eq, if◌then◌else◌, Bool, true, false}
use project_moon.Base.Text.{codes}

pub data MessageId : Type 0 where
  ping_request ping_response login_request login_response : MessageId
  load_player_request load_player_response : MessageId
  enter_dungeon_request enter_dungeon_response : MessageId
  settle_dungeon_request settle_dungeon_response : MessageId
  error_response : MessageId

-- `static_cast<std::uint32_t>(id)`
unfoldable pub to_int : MessageId → ℕ
to_int ping_request = 1
to_int ping_response = 2
to_int login_request = 1001
to_int login_response = 1002
to_int load_player_request = 1101
to_int load_player_response = 1102
to_int enter_dungeon_request = 1201
to_int enter_dungeon_response = 1202
to_int settle_dungeon_request = 1203
to_int settle_dungeon_response = 1204
to_int error_response = 9000

unfoldable pub message_id_from_int : ℕ → Option MessageId
message_id_from_int value =
    if value == 1
    then some ping_request
    else if value == 2
    then some ping_response
    else if value == 1001
    then some login_request
    else if value == 1002
    then some login_response
    else if value == 1101
    then some load_player_request
    else if value == 1102
    then some load_player_response
    else if value == 1201
    then some enter_dungeon_request
    else if value == 1202
    then some enter_dungeon_response
    else if value == 1203
    then some settle_dungeon_request
    else if value == 1204
    then some settle_dungeon_response
    else if value == 9000
    then some error_response
    else none

unfoldable pub to_string : MessageId → Bytes
to_string ping_request = codes "PING_REQUEST"
to_string ping_response = codes "PING_RESPONSE"
to_string login_request = codes "LOGIN_REQUEST"
to_string login_response = codes "LOGIN_RESPONSE"
to_string load_player_request = codes "LOAD_PLAYER_REQUEST"
to_string load_player_response = codes "LOAD_PLAYER_RESPONSE"
to_string enter_dungeon_request = codes "ENTER_DUNGEON_REQUEST"
to_string enter_dungeon_response = codes "ENTER_DUNGEON_RESPONSE"
to_string settle_dungeon_request = codes "SETTLE_DUNGEON_REQUEST"
to_string settle_dungeon_response = codes "SETTLE_DUNGEON_RESPONSE"
to_string error_response = codes "ERROR_RESPONSE"

unfoldable pub expected_response_message_id : MessageId → Option MessageId
expected_response_message_id ping_request = some ping_response
expected_response_message_id login_request = some login_response
expected_response_message_id load_player_request = some load_player_response
expected_response_message_id enter_dungeon_request = some enter_dungeon_response
expected_response_message_id settle_dungeon_request = some settle_dungeon_response
expected_response_message_id _ = none

-- `a == b` on the enumeration
unfoldable pub same_id : MessageId → MessageId → Bool
unfolding to_int
same_id a b = to_int a == to_int b
