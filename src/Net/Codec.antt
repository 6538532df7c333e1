-- ===== src/Net/Codec.antt =====
-- common/include/common/net/proto_codec.h. The generated classes' ParseFromString and
-- SerializeToString are not in the repository: they are the fields of `Protobuf`.
use project_moon.Base.{ℕ, ◌%◌, ◌^◌, Option, Bytes, length}
use project_moon.Net.MessageId.{MessageId, to_int}
use project_moon.Net.Packet.{Packet, default_header}
use project_moon.Net.Proto.{
  PingRequest, PingResponse, ErrorResponse, LoginRequest, LoginResponse, LoadPlayerRequest,
  LoadPlayerResponse, EnterDungeonRequest, EnterDungeonResponse, SettleDungeonRequest,
  SettleDungeonResponse,
}

pub record Protobuf : Type 0 where
  pub parse_ping_request : Bytes → Option PingRequest
  pub parse_login_request : Bytes → Option LoginRequest
  pub parse_login_response : Bytes → Option LoginResponse
  pub parse_load_player_request : Bytes → Option LoadPlayerRequest
  pub parse_enter_dungeon_request : Bytes → Option EnterDungeonRequest
  pub parse_settle_dungeon_request : Bytes → Option SettleDungeonRequest
  pub serialize_ping_response : PingResponse → Bytes
  pub serialize_error_response : ErrorResponse → Bytes
  pub serialize_login_response : LoginResponse → Bytes
  pub serialize_load_player_response : LoadPlayerResponse → Bytes
  pub serialize_enter_dungeon_response : EnterDungeonResponse → Bytes
  pub serialize_settle_dungeon_response : SettleDungeonResponse → Bytes

-- The last argument is the message as it is serialized.
unfoldable pub build_packet : MessageId → ℕ → Bytes → Packet
build_packet message_id request_id body = record {
  header = record default_header {
    msg_id = to_int message_id;
    request_id = request_id;
    body_len = length body % 2 ^ 32;
  };
  body = body;
}
