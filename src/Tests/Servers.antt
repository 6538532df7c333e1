-- ===== src/Tests/Servers.antt =====
-- The dungeon server answers a request to enter that the service refuses.
use project_moon.Base.{
  ℕ, ◌≡◌, ◌⊎◌, refl, some, [], arith, pos, ok, Exec, pure, nat_eq, int_eq, bytes_eq,
}
use project_moon.Base.Text.{codes}
use project_moon.ErrorCode.{player_busy}
use project_moon.Net.MessageId.{
  MessageId, to_int, message_id_from_int, same_id, expected_response_message_id,
  enter_dungeon_request, enter_dungeon_response, error_response,
}
use project_moon.Net.Packet.{Packet, default_header}
use project_moon.Net.RequestContext.{RequestContext, IncomingPacket}
use project_moon.Net.Codec.{Protobuf, build_packet}
use project_moon.Net.Mapper.{from_proto, extract_request_context}
use project_moon.Dungeon.Service.{
  EnterDungeonRequest, EnterDungeonResponse, SettleDungeonRequest, SettleDungeonResponse,
  enter_refused, settle_refused,
}
use project_moon.Dungeon.Server.{handle_enter, handle_packet, with_player, normalize_context}
use project_moon.Dungeon.Server.Replies.{handle_packet-Replies}
use project_moon.Tests.Gateway.{codec}

abbrev entering : Protobuf
entering = record codec {
  parse_enter_dungeon_request = λ s. some (record {
    context = record { trace_id = []; request_id = 4; session_id = codes "s"; player_id = pos 7 };
    player_id = pos 7;
    dungeon_id = pos 1001;
  });
}

abbrev enter_dungeon : EnterDungeonRequest → Exec ℕ EnterDungeonResponse
enter_dungeon request = pure (enter_refused player_busy (codes "player is busy"))

abbrev settle_dungeon : SettleDungeonRequest → Exec ℕ SettleDungeonResponse
settle_dungeon request = pure (settle_refused player_busy (codes "player is busy"))

abbrev incoming : IncomingPacket
incoming = record {
  connection_id = 5;
  packet = record {
    header = record default_header { msg_id = to_int enter_dungeon_request; request_id = 4 };
    body = [];
  };
  peer_address = codes "10.0.0.1:4000";
}

abbrev reply : Packet
reply = record {
  header = record default_header { msg_id = to_int enter_dungeon_response; request_id = 4 };
  body = [];
}

replies : handle_packet entering enter_dungeon settle_dungeon incoming 0 ≡ (ok reply, 0)
unfolding handle_packet handle_enter message_id_from_int to_int same_id from_proto build_packet
    with_player normalize_context
replies = refl

honest :
    (m : MessageId) (c : RequestContext)
    → extract_request_context entering m [] ≡ some c
    → (c.request_id ≡ 0) ⊎ (c.request_id ≡ 4)
unfolding extract_request_context from_proto
honest m c e = ground (arith, e)

handle_packet-Replies_example :
    (reply.header.request_id ≡ 4)
    × ((reply.header.msg_id ≡ to_int error_response)
        ⊎ ((m e : MessageId) × (message_id_from_int (to_int enter_dungeon_request) ≡ some m)
            × (expected_response_message_id m ≡ some e)
            × (reply.header.msg_id ≡ to_int e)))
handle_packet-Replies_example =
    handle_packet-Replies entering enter_dungeon settle_dungeon incoming 0 0 reply honest replies
