-- ===== src/Player/Server.antt =====
-- game_server/game_network_server.cpp: the handling of one packet. Logging and the wiring of
-- `Initialize` are left out.
use project_moon.Base.{
  not, none, some, [], Bytes, ℤ, pos, int_eq, ◌==◌, if◌then◌else◌, Exec, pure, ◌>>=◌,
}
use project_moon.Base.Text.{codes}
use project_moon.ErrorCode.{bad_gateway, to_int, to_string}
use project_moon.Net.MessageId.{
  message_id_from_int, same_id, ping_request, load_player_request, load_player_response,
}
use project_moon.Net.Packet.{Packet}
use project_moon.Net.RequestContext.{
  RequestContext, IncomingPacket, fallback_context_for, normalize_context_for,
}
use project_moon.Net.Proto
use project_moon.Net.Codec.{Protobuf, build_packet}
use project_moon.Net.Mapper.{
  from_proto, fill_context, fill_player_state, build_error_packet, build_ping_response_packet,
}
use project_moon.Player.Service.{LoadPlayerResponse}

unfoldable pub normalize_context : IncomingPacket → RequestContext → RequestContext
unfolding normalize_context_for
normalize_context = normalize_context_for (codes "game-")

unfoldable pub fallback_context : IncomingPacket → RequestContext
unfolding fallback_context_for
fallback_context = fallback_context_for (codes "game-")

-- `State{}` of the generated classes, whose numbers are zero.
abbrev pub empty_state : Proto.State
empty_state = record {
  profile = record {
    player_id = pos 0;
    account_id = pos 0;
    player_name = [];
    level = pos 0;
    stamina = pos 0;
    gold = pos 0;
    diamond = pos 0;
  };
  dungeon_progress = [];
}

-- The response message; the player's state is filled in where loading succeeded.
unfoldable pub load_player_message : RequestContext → LoadPlayerResponse → Proto.LoadPlayerResponse
load_player_message context result = record {
  context = fill_context context;
  success = result.success;
  error_code = to_int result.error_code;
  error_name = to_string result.error_code;
  error_message = result.error_message;
  player_state = if result.success then fill_player_state result.player_state else empty_state;
  loaded_from_cache = result.loaded_from_cache;
}

-- The player of the request, or, where that is 0, of its context.
unfoldable pub with_player : ℤ → RequestContext → RequestContext
with_player player_id context = record context {
  player_id = if not (player_id == pos 0) then player_id else context.player_id;
}

module _ {W : Type 0} (codec : Protobuf) (load_player : Bytes → ℤ → Exec W LoadPlayerResponse) where
  unfoldable pub handle_load_player : IncomingPacket → Exec W Packet
  handle_load_player incoming = elim (codec.parse_load_player_request incoming.packet.body) [
    | none ↦ pure (
        build_error_packet codec (fallback_context incoming) bad_gateway
          (codes "invalid load player request"))
    | some request ↦ do
      let context =
          with_player request.player_id (normalize_context incoming (from_proto request.context))
      result ← load_player context.session_id context.player_id
      pure (
          build_packet load_player_response context.request_id
            (codec.serialize_load_player_response (load_player_message context result)))
  ]

  unfoldable pub handle_ping : IncomingPacket → Exec W Packet
  handle_ping incoming = elim (codec.parse_ping_request incoming.packet.body) [
    | none ↦ pure (
        build_error_packet codec (fallback_context incoming) bad_gateway
          (codes "invalid ping request"))
    | some request ↦ pure (
        build_ping_response_packet codec (normalize_context incoming (from_proto request.context))
          (codes "pong"))
  ]

  -- HandlePacket: it always answers.
  unfoldable pub handle_packet : IncomingPacket → Exec W Packet
  handle_packet incoming = elim (message_id_from_int incoming.packet.header.msg_id) [
    | none ↦ pure (
        build_error_packet codec (fallback_context incoming) bad_gateway
          (codes "unknown message id"))
    | some message_id ↦
        if same_id message_id ping_request
        then handle_ping incoming
        else if not (same_id message_id load_player_request)
        then pure (
            build_error_packet codec (fallback_context incoming) bad_gateway
              (codes "message not supported by game_server"))
        else handle_load_player incoming
  ]
