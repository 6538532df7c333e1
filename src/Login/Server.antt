-- ===== src/Login/Server.antt =====
-- login_server/login_network_server.cpp: the handling of one packet. Logging and the wiring of
-- `Initialize` are left out.
use project_moon.Base.{not, none, some, [], pos, if◌then◌else◌, Exec, pure, ◌>>=◌}
use project_moon.Base.Text.{codes}
use project_moon.ErrorCode.{bad_gateway, to_int, to_string}
use project_moon.Net.MessageId.{
  message_id_from_int, same_id, ping_request, login_request, login_response,
}
use project_moon.Net.Packet.{Packet}
use project_moon.Net.RequestContext.{
  RequestContext, IncomingPacket, fallback_context_for, normalize_context_for,
}
use project_moon.Net.Proto
use project_moon.Net.Codec.{Protobuf, build_packet}
use project_moon.Net.Mapper.{
  from_proto, fill_context, fill_session, build_error_packet, build_ping_response_packet,
}
use project_moon.Login.{LoginRequest, LoginResponse}

unfoldable pub normalize_context : IncomingPacket → RequestContext → RequestContext
unfolding normalize_context_for
normalize_context = normalize_context_for (codes "login-")

unfoldable pub fallback_context : IncomingPacket → RequestContext
unfolding fallback_context_for
fallback_context = fallback_context_for (codes "login-")

-- The response message; the session's fields keep their defaults where the login failed.
unfoldable pub login_message : RequestContext → LoginResponse → Proto.LoginResponse
login_message context result =
    let response_context : RequestContext = record context {
      session_id = result.session.session_id;
      player_id = result.default_player_id;
    } in
    let response : Proto.LoginResponse = record {
      context = fill_context response_context;
      success = result.success;
      error_code = to_int result.error_code;
      error_name = to_string result.error_code;
      error_message = result.error_message;
      session_id = [];
      account_id = pos 0;
      player_id = result.default_player_id;
      created_at_epoch_seconds = pos 0;
    } in
    if result.success then fill_session result.session response else response

module _ {W : Type 0} (codec : Protobuf) (login : LoginRequest → Exec W LoginResponse) where
  unfoldable pub handle_login : IncomingPacket → Exec W Packet
  handle_login incoming = elim (codec.parse_login_request incoming.packet.body) [
    | none ↦ pure (
        build_error_packet codec (fallback_context incoming) bad_gateway
          (codes "invalid login request"))
    | some request ↦ do
      let context = normalize_context incoming (from_proto request.context)
      result ← login (record { account_name = request.account_name; password = request.password })
      pure (
          build_packet login_response context.request_id
            (codec.serialize_login_response (login_message context result)))
  ]

  unfoldable pub handle_ping : IncomingPacket → Exec W Packet
  handle_ping incoming = elim (codec.parse_ping_request incoming.packet.body) [
    | none ↦ pure (
        build_error_packet codec (fallback_context incoming) bad_gateway
          (codes "invalid ping request"))
    | some request ↦ pure (
        build_ping_response_packet codec (normalize_context incoming (from_proto request.context))
          (codes "pong"))
  ]

  -- HandlePacket: it always answers.
  unfoldable pub handle_packet : IncomingPacket → Exec W Packet
  handle_packet incoming = elim (message_id_from_int incoming.packet.header.msg_id) [
    | none ↦ pure (
        build_error_packet codec (fallback_context incoming) bad_gateway
          (codes "unknown message id"))
    | some message_id ↦
        if same_id message_id ping_request
        then handle_ping incoming
        else if not (same_id message_id login_request)
        then pure (
            build_error_packet codec (fallback_context incoming) bad_gateway
              (codes "message not supported by login_server"))
        else handle_login incoming
  ]
