-- ===== src/Dungeon/Server.antt =====
-- dungeon_server/dungeon_network_server.cpp: the handling of one packet. Logging and the wiring of
-- `Initialize` are left out.
pub mod Handlers
pub mod Replies
use project_moon.Base.{not, none, some, map, ℤ, pos, int_eq, ◌==◌, if◌then◌else◌, Exec, pure, ◌>>=◌}
use project_moon.Base.Text.{codes}
use project_moon.ErrorCode.{bad_gateway, to_int, to_string}
use project_moon.Net.MessageId.{
  message_id_from_int, same_id, ping_request, enter_dungeon_request, enter_dungeon_response,
  settle_dungeon_request, settle_dungeon_response,
}
use project_moon.Net.Packet.{Packet}
use project_moon.Net.RequestContext.{
  RequestContext, IncomingPacket, fallback_context_for, normalize_context_for,
}
use project_moon.Net.Proto
use project_moon.Net.Codec.{Protobuf, build_packet}
use project_moon.Net.Mapper.{
  from_proto, fill_context, fill_reward, build_error_packet, build_ping_response_packet,
}
use project_moon.Dungeon.Service.{
  EnterDungeonRequest, EnterDungeonResponse, SettleDungeonRequest, SettleDungeonResponse,
}

unfoldable pub normalize_context : IncomingPacket → RequestContext → RequestContext
unfolding normalize_context_for
normalize_context = normalize_context_for (codes "dungeon-")

unfoldable pub fallback_context : IncomingPacket → RequestContext
unfolding fallback_context_for
fallback_context = fallback_context_for (codes "dungeon-")

-- The player of the request, or, where that is 0, of its context.
unfoldable pub with_player : ℤ → RequestContext → RequestContext
with_player player_id context = record context {
  player_id = if not (player_id == pos 0) then player_id else context.player_id;
}

unfoldable pub enter_message : RequestContext → EnterDungeonResponse → Proto.EnterDungeonResponse
enter_message context result = record {
  context = fill_context context;
  success = result.success;
  error_code = to_int result.error_code;
  error_name = to_string result.error_code;
  error_message = result.error_message;
  battle_id = result.battle_id;
  remain_stamina = result.remain_stamina;
}

unfoldable pub settle_message : RequestContext → SettleDungeonResponse → Proto.SettleDungeonResponse
settle_message context result = record {
  context = fill_context context;
  success = result.success;
  error_code = to_int result.error_code;
  error_name = to_string result.error_code;
  error_message = result.error_message;
  first_clear = result.first_clear;
  rewards = map fill_reward result.rewards;
}

module _ {W : Type 0} (codec : Protobuf)
    (enter_dungeon : EnterDungeonRequest → Exec W EnterDungeonResponse)
    (settle_dungeon : SettleDungeonRequest → Exec W SettleDungeonResponse) where
  unfoldable pub handle_enter : IncomingPacket → Exec W Packet
  handle_enter incoming = elim (codec.parse_enter_dungeon_request incoming.packet.body) [
    | none ↦ pure (
        build_error_packet codec (fallback_context incoming) bad_gateway
          (codes "invalid enter dungeon request"))
    | some request ↦ do
      let context =
          with_player request.player_id (normalize_context incoming (from_proto request.context))
      result ← enter_dungeon (record {
        session_id = context.session_id;
        player_id = context.player_id;
        dungeon_id = request.dungeon_id;
      })
      pure (
          build_packet enter_dungeon_response context.request_id
            (codec.serialize_enter_dungeon_response (enter_message context result)))
  ]

  unfoldable pub handle_settle : IncomingPacket → Exec W Packet
  handle_settle incoming = elim (codec.parse_settle_dungeon_request incoming.packet.body) [
    | none ↦ pure (
        build_error_packet codec (fallback_context incoming) bad_gateway
          (codes "invalid settle dungeon request"))
    | some request ↦ do
      let context =
          with_player request.player_id (normalize_context incoming (from_proto request.context))
      result ← settle_dungeon (record {
        session_id = context.session_id;
        player_id = context.player_id;
        battle_id = request.battle_id;
        dungeon_id = request.dungeon_id;
        star = request.star;
        result = request.result;
      })
      pure (
          build_packet settle_dungeon_response context.request_id
            (codec.serialize_settle_dungeon_response (settle_message context result)))
  ]

  unfoldable pub handle_ping : IncomingPacket → Exec W Packet
  handle_ping incoming = elim (codec.parse_ping_request incoming.packet.body) [
    | none ↦ pure (
        build_error_packet codec (fallback_context incoming) bad_gateway
          (codes "invalid ping request"))
    | some request ↦ pure (
        build_ping_response_packet codec (normalize_context incoming (from_proto request.context))
          (codes "pong"))
  ]

  -- HandlePacket: it always answers.
  unfoldable pub handle_packet : IncomingPacket → Exec W Packet
  handle_packet incoming = elim (message_id_from_int incoming.packet.header.msg_id) [
    | none ↦ pure (
        build_error_packet codec (fallback_context incoming) bad_gateway
          (codes "unknown message id"))
    | some message_id ↦
        if same_id message_id ping_request
        then handle_ping incoming
        else if same_id message_id enter_dungeon_request
        then handle_enter incoming
        else if same_id message_id settle_dungeon_request
        then handle_settle incoming
        else pure (
            build_error_packet codec (fallback_context incoming) bad_gateway
              (codes "message not supported by dungeon_server"))
  ]
